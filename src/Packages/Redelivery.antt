-- ===== src/Packages/Redelivery.antt =====
-- Deliveries in another order, or repeated: src/reader/packages.ts.
use compact_multi_part_event.Prelude.{
  ℕ, ◌≡◌, refl, sym, ap, ◌∙◌, inl, inr, some, List, [], ◌∷◌, map, Bytes, ℕ_eq, nat_eq, concat, All,
  arith, Bool-cases, Option-cases,
}
use compact_multi_part_event.Packages.Accepted.{
  IsRestored, payload_at, evaluate-accepted_iff, evaluate-IsMerged,
}
use compact_multi_part_event.Packages.Evaluate.{evaluate}
use compact_multi_part_event.Packages.Positions.{Member, is_some, ascending_unique}
use compact_multi_part_event.Packages.Survey.{sound_value, first_value, IsClean, IsConsistent}
use compact_multi_part_event.Packages.Types.{accepted, Delivery, Group}

All-Member {κ} : {A : Type 0} (P : A → Type κ) (x : A) (xs : List A) → All P xs → Member x xs → P x
All-Member P x [] h m = absurd m
All-Member P x (y ∷ xs) (p, h) (inl e) = rw (← e) p
All-Member P x (y ∷ xs) (p, h) (inr m) = All-Member P x xs h m

-- A delivery with this position and value.
record IsSource (p : ℕ) (v : Bytes) (ds : List Delivery) : Type 0 where
  delivery : Delivery
  listed : Member delivery ds
  position : delivery.position ≡ p
  value : sound_value delivery ≡ some v

first_value-IsSource :
    (p : ℕ) (v : Bytes) (ds : List Delivery) → first_value p ds ≡ some v → IsSource p v ds
first_value-IsSource p v [] e = absurd (cc)
first_value-IsSource p v (d ∷ ds) e = elim (Bool-cases (nat_eq d.position p)) [
  | inr other ↦ later (first_value-IsSource p v ds (ground arith))
  | inl here ↦ elim (Option-cases (sound_value d)) [
    | inl absent ↦ later (first_value-IsSource p v ds (ground arith))
    | inr (w, present) ↦ record {
      delivery = d;
      listed = inl refl;
      position = ground arith;
      value = ground arith;
    }
  ]
]
  where
    later : IsSource p v ds → IsSource p v (d ∷ ds)
    later s = record {
      delivery = s.delivery;
      listed = inr s.listed;
      position = s.position;
      value = s.value;
    }

module _ (ds es : List Delivery) where
  first_value_keep :
      IsConsistent es
      → ((d : Delivery) → Member d ds → Member d es)
      → (p : ℕ) (v : Bytes) → first_value p ds ≡ some v
      → first_value p es ≡ some v
  first_value_keep consistent sub p v e =
      let s = first_value-IsSource p v ds e in
      let (w, sound, held) =
        All-Member (IsClean (λ q. first_value q es)) s.delivery es consistent
          (sub s.delivery s.listed) in
      let at_p : first_value p es ≡ some w = rw (← s.position) held in at_p ∙ sym sound ∙ s.value

module _ (ds es : List Delivery) (cd : IsConsistent ds) (ce : IsConsistent es)
    (to : (d : Delivery) → Member d ds → Member d es)
    (from : (d : Delivery) → Member d es → Member d ds) where
  first_value_same : (p : ℕ) → first_value p ds ≡ first_value p es
  first_value_same p = elim (Option-cases (first_value p ds)) [
    | inr (v, e) ↦ e ∙ sym (first_value_keep ds es ce to p v e)
    | inl absent ↦ elim (Option-cases (first_value p es)) [
      | inl absent' ↦ absent ∙ sym absent'
      | inr (w, e') ↦ first_value_keep es ds cd from p w e' ∙ sym e'
    ]
  ]

  map-payload_at : (ps : List ℕ) → map (payload_at ds) ps ≡ map (payload_at es) ps
  map-payload_at [] = refl
  map-payload_at (p ∷ ps) =
      rw (first_value_same p) (ap (λ l. payload_at es p ∷ l) (map-payload_at ps))

-- Two groups of restored deliveries that hold the same deliveries, in any order and any number of
-- times, and that are both accepted have the same positions, parts and payload.
pub evaluate_redelivered :
    (g h : Group)
    → All IsRestored g.deliveries
    → All IsRestored h.deliveries
    → (evaluate g).status ≡ accepted
    → (evaluate h).status ≡ accepted
    → ((d : Delivery) → Member d g.deliveries → Member d h.deliveries)
    → ((d : Delivery) → Member d h.deliveries → Member d g.deliveries)
    → ((evaluate g).positions ≡ (evaluate h).positions)
      × ((evaluate g).parts ≡ (evaluate h).parts)
      × ((evaluate g).payload ≡ (evaluate h).payload)
evaluate_redelivered g h rg rh ag ah to from =
    let m = evaluate-IsMerged g rg ag in
    let n = evaluate-IsMerged h rh ah in
    let cg = (evaluate-accepted_iff g).0 ag in
    let ch = (evaluate-accepted_iff h).0 ah in
    let same = first_value_same g.deliveries h.deliveries cg ch to from in
    let positions : (evaluate g).positions ≡ (evaluate h).positions =
      ascending_unique (evaluate g).positions (evaluate h).positions m.ascending n.ascending
        (λ p. m.members p ∙ ap is_some (same p) ∙ sym (n.members p)) in
    let parts : (evaluate g).parts ≡ (evaluate h).parts =
      m.parts
      ∙ map-payload_at g.deliveries h.deliveries cg ch to from (evaluate g).positions
      ∙ ap (map (payload_at h.deliveries)) positions
      ∙ sym n.parts in
    (positions, parts, m.payload ∙ ap (λ l. some (concat l)) parts ∙ sym n.payload)
