-- ===== src/Packages/Accepted.antt =====
-- Which groups are accepted, and what their packages hold: src/reader/packages.ts.
use compact_multi_part_event.Prelude.{
  ℕ, compare, ◌≡◌, refl, ap, ◌∙◌, ◌↔◌, inl, inr, some, List, [], ◌∷◌, map, Bytes, ℕ_eq, length,
  drop, length-drop, concat, All, arith, Option-cases, sort,
}
use compact_multi_part_event.Event.{event_length, name_length}
use compact_multi_part_event.Event.Widths.{length-zeros}
use compact_multi_part_event.Packages.Evaluate.{
  Survey, survey_value, survey_delivery, survey, no_survey, value_or_zeros, part_at, merge_parts,
  package_of, evaluate,
}
use compact_multi_part_event.Packages.Payload.{merge_parts-concat}
use compact_multi_part_event.Packages.Positions.{
  IsAscending, has, is_some, keys, IsDistinct, has-keys, store-IsDistinct, has-sort,
  sort-IsAscending,
}
use compact_multi_part_event.Packages.Survey.{
  first_value, lookup-survey, IsConsistent, survey-IsConsistent_iff,
}
use compact_multi_part_event.Packages.Types.{accepted, Package, Delivery, Group}
use compact_multi_part_event.Parts.Laws.{IsPart}

package_of-status :
    (g : Group) (s : Survey) → ((package_of g s).status ≡ accepted) ↔ (s.issues ≡ [])
unfolding package_of
package_of-status g s = ground arith

-- A group is accepted exactly if every delivery has a value and it is the first value delivered at
-- its position.
pub evaluate-accepted_iff :
    (g : Group) → ((evaluate g).status ≡ accepted) ↔ IsConsistent g.deliveries
unfolding evaluate
evaluate-accepted_iff g =
    let (to, from) = package_of-status g (survey g.deliveries no_survey) in
    let (to', from') = survey-IsConsistent_iff g.deliveries in
    (λ e. to' (to e), λ c. from (from' c))

survey_delivery-IsDistinct :
    (d : Delivery) (s : Survey)
    → IsDistinct (keys s.by_position)
    → IsDistinct (keys (survey_delivery d s).by_position)
unfolding survey_delivery survey_value
survey_delivery-IsDistinct d s h = elim (Option-cases d.malformed) [
  | inr (message, bad) ↦ rw (bad, survey_delivery) h
  | inl good ↦ elim (Option-cases d.value) [
    | inl absent ↦ rw (good, survey_delivery) (rw (absent, survey_delivery) h)
    | inr (v, present) ↦
        rw (good, survey_delivery)
          (rw (present, survey_delivery)
            (ground (arith, store-IsDistinct d.position v s.by_position h)))
  ]
]

survey-IsDistinct :
    (ds : List Delivery) (s : Survey)
    → IsDistinct (keys s.by_position)
    → IsDistinct (keys (survey ds s).by_position)
unfolding survey
survey-IsDistinct [] s h = h
survey-IsDistinct (d ∷ ds) s h =
    survey-IsDistinct ds (survey_delivery d s) (survey_delivery-IsDistinct d s h)

-- The values that were restored are 288 bytes wide.
abbrev pub IsRestored : Delivery → Type 0
IsRestored d = (v : Bytes) → d.value ≡ some v → length v ≡ event_length

first_value-width :
    (p : ℕ) (ds : List Delivery)
    → All IsRestored ds
    → length (value_or_zeros (first_value p ds)) ≡ event_length
first_value-width p [] h = length-zeros event_length
first_value-width p (d ∷ ds) (w, h) = elim (Option-cases d.malformed) [
  | inr (message, bad) ↦ ground (arith, first_value-width p ds h)
  | inl good ↦ elim (Option-cases d.value) [
    | inl absent ↦ ground (arith, first_value-width p ds h)
    | inr (v, present) ↦ ground (arith, first_value-width p ds h, w v present)
  ]
]

-- The payload of the first value delivered at a position.
abbrev pub payload_at : List Delivery → ℕ → Bytes
payload_at ds p = drop name_length (value_or_zeros (first_value p ds))

payload_at-IsPart : (ds : List Delivery) (p : ℕ) → All IsRestored ds → IsPart (payload_at ds p)
payload_at-IsPart ds p h =
    length-drop name_length (value_or_zeros (first_value p ds))
    ∙ omega (arith, first_value-width p ds h)

map-part_at :
    (ds : List Delivery) (ps : List ℕ)
    → map (part_at (survey ds no_survey).by_position) ps ≡ map (payload_at ds) ps
unfolding part_at
map-part_at ds [] = refl
map-part_at ds (p ∷ ps) =
    rw (lookup-survey p ds no_survey) (ap (λ l. payload_at ds p ∷ l) (map-part_at ds ps))

All-payload_at :
    (ds : List Delivery) (ps : List ℕ) → All IsRestored ds → All IsPart (map (payload_at ds) ps)
All-payload_at ds [] h = tt
All-payload_at ds (p ∷ ps) h = (payload_at-IsPart ds p h, All-payload_at ds ps h)

-- What a package of these deliveries holds.
pub record IsMerged (ds : List Delivery) (pkg : Package) : Type 0 where
  pub ascending : IsAscending pkg.positions
  -- A position is listed if and only if a value was delivered there.
  pub members : (p : ℕ) → has p pkg.positions ≡ is_some (first_value p ds)
  pub parts : pkg.parts ≡ map (payload_at ds) pkg.positions
  pub payload : pkg.payload ≡ some (concat pkg.parts)
  pub issues : pkg.issues ≡ []

package_of-positions :
    (g : Group) (s : Survey) → (package_of g s).positions ≡ sort compare (keys s.by_position)
unfolding package_of
package_of-positions g s = ground arith

package_of-parts :
    (g : Group) (s : Survey)
    → (package_of g s).parts ≡ map (part_at s.by_position) (sort compare (keys s.by_position))
unfolding package_of
package_of-parts g s = ground arith

package_of-payload :
    (g : Group) (s : Survey)
    → s.issues ≡ []
    → ((package_of g s).payload ≡ some (merge_parts (package_of g s).parts))
      × ((package_of g s).issues ≡ [])
unfolding package_of
package_of-payload g s h = ground arith

-- The payload of an accepted package is that of its parts.
pub evaluate-merged :
    (g : Group)
    → (evaluate g).status ≡ accepted
    → (evaluate g).payload ≡ some (merge_parts (evaluate g).parts)
unfolding evaluate
evaluate-merged g e =
    let clean = (survey-IsConsistent_iff g.deliveries).1 ((evaluate-accepted_iff g).0 e) in
    (package_of-payload g (survey g.deliveries no_survey) clean).0

-- An accepted package of restored deliveries lists the positions at which values were delivered,
-- strictly ascending; its parts are the payloads of the first values there, and its payload is
-- their concatenation.
pub evaluate-IsMerged :
    (g : Group)
    → All IsRestored g.deliveries
    → (evaluate g).status ≡ accepted
    → IsMerged g.deliveries (evaluate g)
unfolding evaluate
evaluate-IsMerged g restored e =
    let ds = g.deliveries in
    let s = survey ds no_survey in
    let ps = sort compare (keys s.by_position) in
    let clean = (survey-IsConsistent_iff ds).1 ((evaluate-accepted_iff g).0 e) in
    let parts : (package_of g s).parts ≡ map (payload_at ds) ps =
      package_of-parts g s ∙ map-part_at ds ps in
    let widths : All IsPart (package_of g s).parts = rw parts (All-payload_at ds ps restored) in
    let (payload, issues) = package_of-payload g s clean in
    record {
      ascending =
          rw (package_of-positions g s)
            (sort-IsAscending (keys s.by_position) (survey-IsDistinct ds no_survey tt));
      members = λ p. rw (package_of-positions g s) (
          has-sort p (keys s.by_position)
          ∙ has-keys p s.by_position
          ∙ ap is_some (lookup-survey p ds no_survey));
      parts = rw (package_of-positions g s) parts;
      payload = payload ∙ ap some (merge_parts-concat (package_of g s).parts widths);
      issues = issues;
    }
