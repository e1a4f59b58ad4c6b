-- ===== src/Packages/Survey.antt =====
-- What the loop of `evaluate` in src/reader/packages.ts collects from the deliveries.
use compact_multi_part_event.Prelude.{
  ℕ, ◌≡◌, ◌≢◌, refl, sym, ◌∙◌, ◌↔◌, inl, inr, Option, none, some, List, [], ◌∷◌, Bytes, Text, ◌==◌,
  ℕ_eq, text_eq, lookup, lookup-store, All, arith, Option-cases, if◌then◌else◌,
}
use compact_multi_part_event.Bytes.Order.{bytes_equal_iff}
use compact_multi_part_event.Packages.Types.{Delivery}
use compact_multi_part_event.Packages.Evaluate.{
  add_issue, conflict_issue, malformed_issue, Survey, survey_value, survey_delivery, survey,
  no_survey,
}

-- A delivery's value, unless it is malformed.
abbrev pub sound_value : Delivery → Option Bytes
sound_value d = elim d.malformed [ none ↦ d.value | some message ↦ none ]

abbrev pub or_first : Option Bytes → Option Bytes → Option Bytes
or_first none o = o
or_first (some v) o = some v

-- The first value delivered at a position.
abbrev pub first_value : ℕ → List Delivery → Option Bytes
first_value p [] = none
first_value p (d ∷ ds) =
    if d.position == p then or_first (sound_value d) (first_value p ds) else first_value p ds

add_issue-ne-nil : (issue : Text) (issues : List Text) → add_issue issue issues ≢ []
unfolding add_issue
add_issue-ne-nil issue [] = cc
add_issue-ne-nil issue (i ∷ issues) = ground arith

lookup-survey_value :
    (p q : ℕ) (v : Bytes) (s : Survey)
    → lookup p (survey_value q v s).by_position
      ≡ or_first (lookup p s.by_position) (if q == p then some v else none)
unfolding survey_value
lookup-survey_value p q v s = ground (arith, lookup-store q p v s.by_position)

lookup-survey_delivery :
    (p : ℕ) (d : Delivery) (s : Survey)
    → lookup p (survey_delivery d s).by_position
      ≡ or_first (lookup p s.by_position) (if d.position == p then sound_value d else none)
unfolding survey_delivery
lookup-survey_delivery p d s = elim (Option-cases d.malformed) [
  | inr (message, bad) ↦ ground arith
  | inl good ↦ elim (Option-cases d.value) [
    | inl absent ↦ ground arith
    | inr (v, present) ↦
        rw (good, survey_delivery)
          (rw (present, survey_delivery) (lookup-survey_value p d.position v s))
  ]
]

-- The map of positions holds the first value delivered at each position.
pub lookup-survey :
    (p : ℕ) (ds : List Delivery) (s : Survey)
    → lookup p (survey ds s).by_position ≡ or_first (lookup p s.by_position) (first_value p ds)
unfolding survey
lookup-survey p [] s = ground arith
lookup-survey p (d ∷ ds) s =
    ground (arith, lookup-survey p ds (survey_delivery d s), lookup-survey_delivery p d s)

-- A delivery has a value, and it is the one that is held for its position.
abbrev pub IsClean : (ℕ → Option Bytes) → Delivery → Type 0
IsClean held d = (v : Bytes) × (sound_value d ≡ some v) × (held d.position ≡ some v)

-- What the map holds at a position once the delivery has been surveyed and others follow.
abbrev held_with : Delivery → Survey → Option Bytes → Option Bytes
held_with d s rest = or_first (or_first (lookup d.position s.by_position) (sound_value d)) rest

survey_value-IsClean :
    (q : ℕ) (v : Bytes) (s : Survey) (rest : Option Bytes)
    → ((survey_value q v s).issues ≡ [])
      ↔ ((s.issues ≡ []) × (or_first (or_first (lookup q s.by_position) (some v)) rest ≡ some v))
unfolding survey_value
survey_value-IsClean q v s rest = elim (Option-cases (lookup q s.by_position)) [
  | inl fresh ↦ ground arith
  | inr (seen, old) ↦
      ground (arith, bytes_equal_iff seen v, add_issue-ne-nil (conflict_issue q) s.issues)
]

survey_delivery-IsClean_iff :
    (d : Delivery) (s : Survey) (rest : Option Bytes)
    → ((survey_delivery d s).issues ≡ [])
      ↔ ((s.issues ≡ []) × ((v : Bytes) × (sound_value d ≡ some v) × (held_with d s rest ≡ some v)))
unfolding survey_delivery
survey_delivery-IsClean_iff d s rest = elim (Option-cases d.malformed) [
  | inr (message, bad) ↦ (
    λ e. absurd (add_issue-ne-nil _ s.issues (rw (bad, survey_delivery) at e)),
    λ (_, (v, sound, _)). cc,
  )
  | inl good ↦ elim (Option-cases d.value) [
    | inl absent ↦ (
      λ e. absurd (add_issue-ne-nil (malformed_issue d.position none) s.issues (ground arith)),
      λ (_, (v, sound, _)). ground arith,
    )
    | inr (w, present) ↦
        let (to, from) = survey_value-IsClean d.position w s rest in
        (
          λ e. let (clean, held) = to (ground arith) in (clean, (w, ground arith, ground arith)),
          λ (clean, (v, sound, held)). ground (arith, from (clean, ground arith)),
        )
  ]
]

held_by : List Delivery → Survey → ℕ → Option Bytes
held_by ds s p = lookup p (survey ds s).by_position

-- No issue is found exactly if there was none and every delivery is clean.
survey-IsClean_iff :
    (ds : List Delivery) (s : Survey)
    → ((survey ds s).issues ≡ []) ↔ ((s.issues ≡ []) × All (IsClean (held_by ds s)) ds)
unfolding survey held_by
survey-IsClean_iff [] s = (λ e. (e, tt), λ (e, _). e)
survey-IsClean_iff (d ∷ ds) s =
    let s' = survey_delivery d s in
    let rest = first_value d.position ds in
    let (to, from) = survey-IsClean_iff ds s' in
    let (to_one, from_one) = survey_delivery-IsClean_iff d s rest in
    let held : lookup d.position (survey ds s').by_position ≡ held_with d s rest =
      ground (arith, lookup-survey d.position ds s', lookup-survey_delivery d.position d s) in
    (
      λ e.
          let (clean', all) = to e in
          let (clean, (v, sound, kept)) = to_one clean' in (clean, ((v, sound, held ∙ kept), all)),
      λ (clean, ((v, sound, kept), all)). from (from_one (clean, (v, sound, sym held ∙ kept)), all),
    )

-- Every delivery has a value, and it is the first one delivered at its position.
abbrev pub IsConsistent : List Delivery → Type 0
IsConsistent ds = All (IsClean (λ p. first_value p ds)) ds

All-held {κ} :
    (P Q : (ℕ → Option Bytes) → Delivery → Type κ) (f g : ℕ → Option Bytes) (ds : List Delivery)
    → ((d : Delivery) → P f d → Q g d)
    → All (P f) ds
    → All (Q g) ds
All-held P Q f g [] h a = tt
All-held P Q f g (d ∷ ds) h (p, a) = (h d p, All-held P Q f g ds h a)

-- A group's survey has no issue exactly if its deliveries are consistent.
pub survey-IsConsistent_iff :
    (ds : List Delivery) → ((survey ds no_survey).issues ≡ []) ↔ IsConsistent ds
unfolding held_by
survey-IsConsistent_iff ds =
    let (to, from) = survey-IsClean_iff ds no_survey in
    let f = held_by ds no_survey in
    let g = λ (p : ℕ). first_value p ds in
    (
      λ e.
          All-held IsClean IsClean f g ds
            (λ d (v, sound, held). (v, sound, sym (lookup-survey d.position ds no_survey) ∙ held))
            (to e).1,
      λ c. from (
        refl,
        All-held IsClean IsClean g f ds
            (λ d (v, sound, held). (v, sound, lookup-survey d.position ds no_survey ∙ held)) c,
      ),
    )
