-- ===== src/Guard/Soundness.antt =====
-- A package's intent under the checks of src/publisher/guard.ts.
use compact_multi_part_event.Prelude.{
  ℕ, ◌≤◌, ◌≡◌, refl, false, not, ◌&&◌, ◌||◌, Option, none, some, List, ◌++◌, Text, text, lookup,
  ℕ_eq, text_eq, length, nat_eq, leb, Result, ok, throw, package_check, guard-eq-ok, guard_last,
  throw_ne_ok, decimal, nat_eq_iff, >>=-eq-ok, arith,
}
use compact_multi_part_event.Event.{name_length}
use compact_multi_part_event.Guard.{
  ExpectedPackage, check_actions, check_intent, assert_package_intent, has_segment,
}
use compact_multi_part_event.Guard.Calls.{check_actions-AreEmissions}
use compact_multi_part_event.Guard.Spec.{AreEmissions, IsPackageIntent}
use compact_multi_part_event.Ledger.{Intent, Ledger}

module _ (L : Ledger) where
  open L use {Transcript, program, Tx, intents, fallible_offers}

  -- What a passed intent has been shown to hold.
  record IsPassed (expected : ExpectedPackage) (frozen : Option (List Transcript)) (offers : List ℕ)
      (intent : Intent Transcript) : Type 0 where
    emissions : AreEmissions L expected expected.parts frozen intent.actions
    no_guaranteed_offer : intent.has_guaranteed_unshielded_offer ≡ false
    no_fallible_offer : intent.has_fallible_unshielded_offer ≡ false
    no_dust : intent.has_dust_actions ≡ false
    no_zswap : has_segment offers expected.segment ≡ false

  check_intent-IsPassed :
      (stage : Text) (expected : ExpectedPackage) (frozen : Option (List Transcript))
      (offers : List ℕ) (intent : Intent Transcript)
      → length expected.name ≡ name_length
      → check_intent L stage expected frozen offers intent ≡ ok tt
      → IsPassed expected frozen offers intent
  unfolding check_intent
  check_intent-IsPassed stage expected frozen offers intent w e =
      let (count, e1) =
        guard-eq-ok (nat_eq (length intent.actions) (length expected.parts)) _ _ e in
      let (_, actions, e2) =
        >>=-eq-ok (check_actions L stage expected 0 expected.parts frozen intent.actions) _ e1 in
      let (unshielded, e3) =
        guard-eq-ok
          (not (intent.has_guaranteed_unshielded_offer || intent.has_fallible_unshielded_offer)) _ _
          e2 in
      let (dust, e4) = guard-eq-ok (not intent.has_dust_actions) _ _ e3 in
      let zswap = guard_last (not (has_segment offers expected.segment)) _ e4 in
      record {
        emissions =
            check_actions-AreEmissions L stage expected w 0 expected.parts frozen intent.actions
              ((nat_eq_iff _ _).0 count) actions;
        no_guaranteed_offer = ground arith;
        no_fallible_offer = ground arith;
        no_dust = ground arith;
        no_zswap = ground arith;
      }

  -- If the checks of a package pass at a stage, then its intent holds exactly one guaranteed-only
  -- call of the emitting circuit for each part, in order, which logs that part under the package's
  -- name, and carries nothing else.
  pub assert_package_intent-IsPackageIntent :
      (tx : Tx) (expected : ExpectedPackage) (stage : Text) (frozen : Option (List Transcript))
      → assert_package_intent L tx expected stage frozen ≡ ok tt
      → IsPackageIntent L tx expected frozen
  unfolding assert_package_intent
  assert_package_intent-IsPackageIntent tx expected stage frozen e =
      let (count, e1) = guard-eq-ok (leb 1 (length expected.parts)) _ _ e in
      let (width, e2) = guard-eq-ok (nat_eq (length expected.name) name_length) _ _ e1 in
      let (range, e3) = guard-eq-ok (leb 1 expected.segment && leb expected.segment 65535) _ _ e2 in
      cases (ground arith) ((nat_eq_iff _ _).0 width) (ground arith) (ground arith)
        (lookup expected.segment (intents tx)) refl e3
    where
      cases :
          1 ≤ length expected.parts
          → length expected.name ≡ name_length
          → 1 ≤ expected.segment
          → expected.segment ≤ 65535
          → (found : Option (Intent Transcript)) → lookup expected.segment (intents tx) ≡ found
          → (elim (lookup expected.segment (intents tx)) as (λ _. Result (Unit {0})) [
            | none ↦ throw (
                package_check stage
                  (text "no intent at package segment " ++ decimal expected.segment))
            | some intent ↦ check_intent L stage expected frozen (fallible_offers tx) intent
          ])
            ≡ ok tt
          → IsPackageIntent L tx expected frozen
      cases count width low high none h e' = absurd (throw_ne_ok _ tt (rw h at e'))
      cases count width low high (some intent) h e' =
          let p =
            check_intent-IsPassed stage expected frozen (fallible_offers tx) intent width
              (rw h at e') in
          record {
            some_part = count;
            name_width = width;
            physical = low;
            in_range = high;
            intent = intent;
            found = h;
            emissions = p.emissions;
            no_guaranteed_offer = p.no_guaranteed_offer;
            no_fallible_offer = p.no_fallible_offer;
            no_dust = p.no_dust;
            no_zswap = p.no_zswap;
          }
