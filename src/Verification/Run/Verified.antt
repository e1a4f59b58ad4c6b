-- ===== src/Verification/Run/Verified.antt =====
-- `verifyPackages` of src/cli/verify.ts: what the reports of its entries stand for.
use compact_multi_part_event.Prelude.{
  ℕ, ◌≡◌, ◌≢◌, ◌≤◌, refl, ap, subst, true, Option, some, ok_injective, List, [], ◌∷◌, ◌++◌, Text,
  Bytes, inl, inr, lookup, text_eq, Dictionary, Result, ok, arith, All,
}
use compact_multi_part_event.Ledger.{Ledger}
use compact_multi_part_event.Bytes.{bytes_to_hex}
use compact_multi_part_event.Packages.{Package, accepted, merge_parts}
use compact_multi_part_event.Packages.Positions.{Member}
use compact_multi_part_event.Verification.Facts.Entries.{IsEntry, IsRead}
use compact_multi_part_event.Process.{lift, process-ok}
use compact_multi_part_event.Verification.Checks.{package_check, fact_transaction, level_two_checks}
use compact_multi_part_event.Verification.Checks.Evidence.{
  package_check-level, package_check-passed,
}
use compact_multi_part_event.Verification.Checks.Placed.{
  ArePassed, ArePassed-split, level_two_checks-IsPlaced, level_two_checks-AreOfLevelTwo,
}
use compact_multi_part_event.Verification.Run.Reached.{verify_entry-Stays}
use compact_multi_part_event.Verification.Facts.Reached.{Reached}
use compact_multi_part_event.Verification.Facts.Surveyed.{IsFact, AreFacts}
use compact_multi_part_event.Verification.Levels.{Check}
use compact_multi_part_event.Verification.Levels.Highest.{HasLevel, IsPassed, level_of-IsHighest}
use compact_multi_part_event.Verification.Records.{
  BlockRef, SourceEvents, VerifySource, VerifyRequest, PackageReport, Entry, TransactionFacts,
}
use compact_multi_part_event.Verification.Run.{
  States, level_three_checks, package_report, verify_entry, verify_entries,
}
use compact_multi_part_event.Verification.Requests.{issues_of, or_block, block_of, map_payload}
use compact_multi_part_event.Verification.Run.Reports.{
  IsVerified, IsLevelThree, AreStates, level_three_checks-cases, level_three-passed,
  level_three-HasLevel, two-HasLevel, HasLevel-split,
}

module _ (sha256_hex : Bytes → Text) (operation_key : Bytes → Text → Result (Option Bytes))
    (L : Ledger) (V : VerifySource) (start : V.State) where
  open L use {Tx}
  open V use {State}

  -- A report whose level is at least the requested one.
  abbrev pub Reaches : VerifyRequest → SourceEvents → List Package → PackageReport → Type 0
  Reaches request fetched packages report =
      1 ≤ request.level
      → request.level ≤ report.level
      → IsVerified sha256_hex operation_key L V start request fetched packages report

  -- The payload of each accepted package is that of its parts.
  abbrev pub AreMerged : List Package → Type 0
  AreMerged packages =
      (pkg : Package)
      → Member pkg packages
      → pkg.status ≡ accepted
      → pkg.payload ≡ some (merge_parts pkg.parts)

  package_report-Reaches :
      (request : VerifyRequest) (fetched : SourceEvents) (packages : List Package) (entry : Entry)
      (fact : Option (TransactionFacts Tx)) (block : Option BlockRef) (second third : List Check)
      → AreMerged packages
      → IsEntry (IsRead request.segment packages) entry
      → ((f : TransactionFacts Tx) → fact ≡ some f → IsFact L V start entry.transaction_hash f)
      → level_two_checks L request entry fact (
          package_check sha256_hex entry (issues_of (lookup entry.transaction_hash fetched.issues)))
        ≡ ok second
      → IsLevelThree sha256_hex operation_key L V start request block third
      → Reaches request fetched packages (
          package_report sha256_hex operation_key L V request entry fact block (
            (package_check sha256_hex entry
                (issues_of (lookup entry.transaction_hash fetched.issues))
              ∷ second)
            ++ third))
  unfolding package_report
  package_report-Reaches request fetched packages entry fact block second third merged is_entry
        facts two three asked reached =
      record {
        pkg = shown.0;
        shown = from_events.0.0;
        asked = from_events.0.1;
        hash = from_events.1;
        segment = from_events.2;
        is_accepted = shown.2;
        converted = shown.3;
        parts = rw shown.1 refl;
        merged = merged shown.0 from_events.0.0 shown.2;
        payload =
            rw (shown.1, shown.2)
              (ap (map_payload bytes_to_hex) (merged shown.0 from_events.0.0 shown.2));
        placed = λ high.
            level_two_checks-IsPlaced L V start request entry fact first second shown.0
              entry.transaction_hash facts two shown.1 good high (some_second high)
              (parts 2 (omega arith) high).0;
        deployed = λ high.
            level_three-passed sha256_hex operation_key L V start request block third three
              (some_third high) (parts 3 (omega arith) high).1;
      }
    where
      issues : List Text
      issues = issues_of (lookup entry.transaction_hash fetched.issues)

      first : Check
      first = package_check sha256_hex entry issues

      passed : (k : ℕ) → 1 ≤ k → k ≤ request.level → IsPassed k ((first ∷ second) ++ third)
      passed k low high =
          let highest = level_of-IsHighest ((first ∷ second) ++ third) request.level in
          highest.passed k low (omega (arith, reached, high))

      good : first.passed ≡ true
      good = (passed 1 (omega arith) asked).1.0 (package_check-level sha256_hex entry issues)

      shown :
          (pkg : Package) × (entry.from_events ≡ some pkg) × (pkg.status ≡ accepted) × (issues ≡ [])
      shown = package_check-passed sha256_hex entry issues good

      from_events :
          IsRead request.segment packages shown.0
          × (entry.transaction_hash ≡ shown.0.scope.transaction_hash)
          × (entry.segment ≡ shown.0.scope.segment)
      from_events = is_entry shown.0 shown.1

      parts : (k : ℕ) → 1 ≤ k → k ≤ request.level → ArePassed k second × ArePassed k third
      parts k low high = ArePassed-split k second third (passed k low high).1.1

      some_second : 2 ≤ request.level → second ≢ []
      some_second high empty = elim (passed 2 (omega arith) high).0 [
        | inl here ↦ absurd (omega (arith, here, package_check-level sha256_hex entry issues))
        | inr later ↦
            elim (HasLevel-split sha256_hex operation_key L V start 2 second third later) [
              | inl left ↦ absurd (subst (HasLevel 2) empty left)
              | inr right ↦ absurd (
                  omega (
                    arith,
                    level_three-HasLevel sha256_hex operation_key L V start request block third 2
                        three right,
                  ))
            ]
      ]

      some_third : 3 ≤ request.level → third ≢ []
      some_third high empty = elim (passed 3 (omega arith) high).0 [
        | inl here ↦ absurd (omega (arith, here, package_check-level sha256_hex entry issues))
        | inr later ↦
            elim (HasLevel-split sha256_hex operation_key L V start 3 second third later) [
              | inl left ↦
                  let two_levels =
                    level_two_checks-AreOfLevelTwo L V start request entry fact first second
                      entry.transaction_hash facts two in
                  absurd (
                    omega (
                      arith,
                      two-HasLevel sha256_hex operation_key L V start 3 second two_levels left,
                    ))
              | inr right ↦ absurd (subst (HasLevel 3) empty right)
            ]
      ]

  verify_entry-Reaches :
      (request : VerifyRequest) (fetched : SourceEvents) (packages : List Package)
      (facts : Dictionary Text (TransactionFacts Tx)) (states : States sha256_hex operation_key L V)
      (entry : Entry) (s : State) (out : PackageReport × States sha256_hex operation_key L V)
      → Reached V start s
      → AreMerged packages
      → IsEntry (IsRead request.segment packages) entry
      → AreFacts L V start facts
      → AreStates sha256_hex operation_key L V start request.target.contract states
      → (verify_entry sha256_hex operation_key L V request fetched facts states entry s).0 ≡ ok out
      → Reaches request fetched packages out.0
        × AreStates sha256_hex operation_key L V start request.target.contract out.1
  unfolding verify_entry
  verify_entry-Reaches request fetched packages facts states entry s out reached merged is_entry
        known held h =
      let issues = issues_of (lookup entry.transaction_hash fetched.issues) in
      let fact = lookup entry.transaction_hash facts in
      let block =
        or_block (block_of (fact_transaction L fact))
          (lookup entry.transaction_hash fetched.blocks) in
      let first = package_check sha256_hex entry issues in
      let (second, two, h1) =
        process-ok (lift (level_two_checks L request entry fact first)) _ s h in
      let (third, three, h2) =
        process-ok
          (level_three_checks sha256_hex operation_key L V request states block (first ∷ second)) _
          _ h1 in
      let (added, kept) =
        level_three_checks-cases sha256_hex operation_key L V start request states block
          (first ∷ second) _ third reached held three in
      subst
        (λ (x : PackageReport × States sha256_hex operation_key L V).
          Reaches request fetched packages x.0
          × AreStates sha256_hex operation_key L V start request.target.contract x.1)
        (ok_injective h2)
        (
          package_report-Reaches request fetched packages entry fact block second third.0 merged
              is_entry (known entry.transaction_hash) two added,
          kept,
        )

  pub verify_entries-Reaches :
      (request : VerifyRequest) (fetched : SourceEvents) (packages : List Package)
      (facts : Dictionary Text (TransactionFacts Tx)) (states : States sha256_hex operation_key L V)
      (entries : List Entry) (s : State) (out : List PackageReport)
      → Reached V start s
      → AreMerged packages
      → All (IsEntry (IsRead request.segment packages)) entries
      → AreFacts L V start facts
      → AreStates sha256_hex operation_key L V start request.target.contract states
      → (verify_entries sha256_hex operation_key L V request fetched facts states entries s).0
        ≡ ok out
      → All (Reaches request fetched packages) out
  unfolding verify_entries
  verify_entries-Reaches request fetched packages facts states [] s out reached merged are known
        held h =
      subst (All (Reaches request fetched packages)) (ok_injective h) tt
  verify_entries-Reaches request fetched packages facts states (entry ∷ entries) s out reached
        merged (is, are) known held h =
      let (report, first, h1) =
        process-ok (verify_entry sha256_hex operation_key L V request fetched facts states entry) _
          s h in
      let (reaches, kept) =
        verify_entry-Reaches request fetched packages facts states entry s report reached merged is
          known held first in
      let (reports, rest, h2) =
        process-ok
          (verify_entries sha256_hex operation_key L V request fetched facts report.1 entries) _ _
          h1 in
      subst (All (Reaches request fetched packages)) (ok_injective h2) (
        reaches,
        verify_entries-Reaches request fetched packages facts report.1 entries _ reports
            (verify_entry-Stays sha256_hex operation_key L V start request fetched facts states
              entry s reached)
            merged are known kept rest,
      )
