-- ===== src/Finalize/Location.antt =====
-- Where a transaction stands relative to a saved record: src/publisher/finalize.ts.
use compact_multi_part_event.Prelude.{
  ◌≡◌, refl, sym, inl, inr, true, false, none, some, List, [], ◌∷◌, Text, text, lookup, ℕ_eq, ◌==◌,
  text_eq, if◌then◌else◌, every, All, Result, ok, throw, >>=-eq-ok, Option-cases, Bool-cases,
  none_ne_some, arith,
}
use compact_multi_part_event.Finalize.Checks.{
  missing, differing_intent, is_merged, locate_checked, locate_record,
}
use compact_multi_part_event.Finalize.Records.{
  message_of, PackageRecord, FinalizedRecord, RecordLocation, expected_from_record,
}
use compact_multi_part_event.Finalize.Submission.{AreRecorded}
use compact_multi_part_event.Guard.{ExpectedPackage, assert_transaction_packages}
use compact_multi_part_event.Guard.Transactions.{IsPackaged, assert_transaction_packages-IsPackaged}
use compact_multi_part_event.Ledger.{Ledger}
use compact_multi_part_event.Packages.Positions.{Member}
use compact_multi_part_event.Transaction.{includes}

false_ne_true : ¬ (false ≡ true)
false_ne_true h = cc

includes-Member : (ts : List Text) (t : Text) → includes ts t ≡ true → Member t ts
unfolding includes
includes-Member [] t e = cc
includes-Member (s ∷ ts) t e = elim (Bool-cases (s == t)) [
  | inl same ↦ inl ((text_eq.beq_iff s t).0 same)
  | inr differs ↦ inr (includes-Member ts t (ground arith))
]

every-All : (ts ids : List Text) → every (includes ts) ids ≡ true → All (λ id. Member id ts) ids
every-All ts [] e = tt
every-All ts (id ∷ ids) e = (includes-Member ts id (ground arith), every-All ts ids (ground arith))

module _ (L : Ledger) where
  open L use {Tx, intents, identifiers}

  pub record IsLocated (tx : Tx) (saved : FinalizedRecord) : Type 0 where
    pub present : All (λ id. Member id (identifiers tx)) saved.identifiers
    pub hashes : AreRecorded L tx saved.packages
    pub expected : List ExpectedPackage
    pub described : expected_from_record saved ≡ ok expected
    pub packaged : IsPackaged L tx expected none

  differing_intent-AreRecorded :
      (tx : Tx) (packages : List PackageRecord)
      → differing_intent L tx packages ≡ none
      → AreRecorded L tx packages
  unfolding differing_intent
  differing_intent-AreRecorded tx [] e = tt
  differing_intent-AreRecorded tx (pkg ∷ packages) e =
      elim (Option-cases (lookup pkg.segment (intents tx))) [
        | inl h ↦ absurd (none_ne_some (sym (rw (differing_intent, h) at e)))
        | inr (intent, h) ↦
            let e' : (if L.intent_hash intent pkg.segment == pkg.intent_hash
                  then differing_intent L tx packages
                  else some pkg.segment)
                ≡ none =
              rw (differing_intent, h) at e in
            elim (Bool-cases (L.intent_hash intent pkg.segment == pkg.intent_hash)) [
              | inl same ↦ (
                (intent, h, (text_eq.beq_iff _ _).0 same),
                differing_intent-AreRecorded tx packages (rw same at e'),
              )
              | inr differs ↦ absurd (none_ne_some (sym (rw differs at e')))
            ]
      ]

  -- The location that the outcome of the package checks gives.
  abbrev located : Tx → FinalizedRecord → Result (Unit {0}) → RecordLocation
  located tx saved (throw x) = missing L (message_of x)
  located tx saved (ok _) = record { contains = true; merged = is_merged L tx saved; reason = none }

  checked-eq-ok :
      (tx : Tx) (saved : FinalizedRecord) (checked : Result (Unit {0}))
      → locate_checked L tx saved ≡ checked
      → (located tx saved checked).contains ≡ true
      → (expected : List ExpectedPackage) × (expected_from_record saved ≡ ok expected)
        × (assert_transaction_packages L tx expected (text "locate") none ≡ ok tt)
  unfolding locate_checked
  checked-eq-ok tx saved (throw x) h e = absurd (false_ne_true e)
  checked-eq-ok tx saved (ok tt) h e = >>=-eq-ok (expected_from_record saved) _ h

  -- If a transaction is found to contain a record, then it has every recorded identifier, it holds
  -- the intent of each recorded package with the recorded hash, and it holds every recorded
  -- package, one intent each with a guaranteed-only call for each part.
  pub locate_record-IsLocated :
      (tx : Tx) (saved : FinalizedRecord)
      → (locate_record L tx saved).contains ≡ true
      → IsLocated tx saved
  unfolding locate_record locate_checked
  locate_record-IsLocated tx saved e =
      elim (Bool-cases (every (includes (identifiers tx)) saved.identifiers)) [
        | inr absent ↦ absurd (false_ne_true (rw (locate_record, absent) at e))
        | inl present ↦ elim (Option-cases (differing_intent L tx saved.packages)) [
          | inr (segment, differs) ↦
              absurd (false_ne_true (rw (locate_record, present, differs) at e))
          | inl same ↦
              let (expected, described, passed) =
                checked-eq-ok tx saved (locate_checked L tx saved) refl
                  (rw (locate_record, present, same) at e) in
              record {
                present = every-All (identifiers tx) saved.identifiers present;
                hashes = differing_intent-AreRecorded tx saved.packages same;
                expected = expected;
                described = described;
                packaged =
                    assert_transaction_packages-IsPackaged L tx expected (text "locate") none
                      passed;
              }
        ]
      ]
