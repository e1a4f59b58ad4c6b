-- ===== src/Verification/Run/Listed.antt =====
-- `verifyPackages` of src/cli/verify.ts: the report that lists the entries' packages.
use compact_multi_part_event.Prelude.{
  ℕ, ◌≡◌, ◌≢◌, ◌≤◌, refl, sym, subst, false, Option, ok_injective, List, [], ◌∷◌, map, Text, Bytes,
  none_ne_some, text_eq, sort-All, sort-cons, Dictionary, ltb, Result, ok, arith, All,
  if◌then◌else◌, sort,
}
use compact_multi_part_event.Ledger.{Ledger}
use compact_multi_part_event.Packages.{Package, ReadOutput}
use compact_multi_part_event.Verification.Facts.Entries.{IsRead, AreEntries, AreEntries-map}
use compact_multi_part_event.Process.{process-ok}
use compact_multi_part_event.Verification.Facts.Surveyed.{AreFacts}
use compact_multi_part_event.Verification.Facts.{Survey}
use compact_multi_part_event.Verification.Records.{
  SourceEvents, VerifySource, VerifyRequest, PackageReport, VerifyReport, verify_exit_status, Entry,
  TransactionFacts,
}
use compact_multi_part_event.Verification.Run.{
  States, verify_entry, verify_entries, not_found_report, report_of, verify_surveyed,
}
use compact_multi_part_event.Verification.Requests.{compare_reports, lowest_level}
use compact_multi_part_event.Verification.Facts.Reached.{Reached}
use compact_multi_part_event.Verification.Run.Reports.{IsVerified}
use compact_multi_part_event.Verification.Run.Verified.{Reaches, AreMerged, verify_entries-Reaches}

module _ (sha256_hex : Bytes → Text) (operation_key : Bytes → Text → Result (Option Bytes))
    (L : Ledger) (V : VerifySource) (start : V.State) where
  open L use {Tx}
  open V use {State}

  lowest_level-lowest :
      (level : ℕ) (reports : List PackageReport)
      → (lowest_level level reports ≤ level)
        × All (λ r. lowest_level level reports ≤ r.level) reports
  unfolding lowest_level
  lowest_level-lowest level [] = (omega arith, tt)
  lowest_level-lowest level (r ∷ reports) =
      let next = if ltb r.level level then r.level else level in
      let (low, each) = lowest_level-lowest next reports in
      let least : (next ≤ level) × (next ≤ r.level) = ground arith in
      (omega (arith, low, least.0), (omega (arith, low, least.1), each))

  -- Every report of the requested level at least is that of a verified package.
  lowest_level-IsVerified :
      (request : VerifyRequest) (fetched : SourceEvents) (packages : List Package) (level : ℕ)
      (reports : List PackageReport)
      → 1 ≤ request.level
      → request.level ≤ level
      → All (λ r. level ≤ r.level) reports
      → All (Reaches sha256_hex operation_key L V start request fetched packages) reports
      → All (IsVerified sha256_hex operation_key L V start request fetched packages) reports
  lowest_level-IsVerified request fetched packages level [] asked reached low reaches = tt
  lowest_level-IsVerified request fetched packages level (r ∷ reports) asked reached (low, lows)
        (reach, reaches) =
      (
        reach asked (omega arith),
        lowest_level-IsVerified request fetched packages level reports asked reached lows reaches,
      )

  report_of-exit :
      (request : VerifyRequest) (name : Bytes) (level count others : ℕ)
      (reports : List PackageReport) (notes : List Text)
      → verify_exit_status (
          report_of sha256_hex operation_key L V request name level false count others reports
            notes)
        ≡ 0
      → request.level ≤ level
  unfolding report_of verify_exit_status
  report_of-exit request name level count others reports notes h = ground (arith, h)

  pub not_found_report-exit :
      (request : VerifyRequest) (name : Bytes) (note : Text) (count others : ℕ)
      → verify_exit_status
          (not_found_report sha256_hex operation_key L V request name note count others)
        ≢ 0
  unfolding not_found_report report_of verify_exit_status
  not_found_report-exit request name note count others h = absurd (omega (arith, h))

  verify_entries-cons :
      (request : VerifyRequest) (fetched : SourceEvents)
      (facts : Dictionary Text (TransactionFacts Tx)) (states : States sha256_hex operation_key L V)
      (entry : Entry) (entries : List Entry) (s : State) (out : List PackageReport)
      → (verify_entries sha256_hex operation_key L V request fetched facts states
          (entry ∷ entries)
          s).0
        ≡ ok out
      → (r : PackageReport) × (rs : List PackageReport) × (r ∷ rs ≡ out)
  unfolding verify_entries
  verify_entries-cons request fetched facts states entry entries s out h =
      let (report, _, h1) =
        process-ok (verify_entry sha256_hex operation_key L V request fetched facts states entry) _
          s h in
      let (reports, _, h2) =
        process-ok
          (verify_entries sha256_hex operation_key L V request fetched facts report.1 entries) _ _
          h1 in
      (report.0, reports, ok_injective h2)

  -- The sorted reports, of the lowest level of which the report is.
  sorted-AreVerified :
      (request : VerifyRequest) (fetched : SourceEvents) (packages : List Package)
      (reports : List PackageReport)
      → 1 ≤ request.level
      → request.level ≤ lowest_level request.level (sort compare_reports reports)
      → All (Reaches sha256_hex operation_key L V start request fetched packages) reports
      → All
          (IsVerified sha256_hex operation_key L V start request fetched packages)
          (sort compare_reports reports)
  sorted-AreVerified request fetched packages reports asked reached reaches =
      let sorted = sort compare_reports reports in
      lowest_level-IsVerified request fetched packages (lowest_level request.level sorted) sorted
        asked reached (lowest_level-lowest request.level sorted).1
        (sort-All compare_reports
          (Reaches sha256_hex operation_key L V start request fetched packages) reports reaches)

  pub verify_surveyed-AreVerified :
      (request : VerifyRequest) (name : Bytes) (fetched : SourceEvents) (read : ReadOutput)
      (survey : Survey L V) (s : State) (report : VerifyReport)
      → 1 ≤ request.level
      → Reached V start s
      → AreEntries (IsRead request.segment read.packages) survey.entries
      → AreMerged sha256_hex operation_key L V start read.packages
      → AreFacts L V start survey.facts
      → (verify_surveyed sha256_hex operation_key L V request name fetched read survey s).0
        ≡ ok report
      → verify_exit_status report ≡ 0
      → (report.packages ≢ [])
        × All
            (IsVerified sha256_hex operation_key L V start request fetched read.packages)
            report.packages
  unfolding verify_surveyed report_of
  verify_surveyed-AreVerified request name fetched read survey s report asked reached shown merged
        known h zero_exit =
      by_entries survey.entries refl
    where
      AllVerified : List PackageReport → Type 0
      AllVerified reports =
          (reports ≢ [])
          × All (IsVerified sha256_hex operation_key L V start request fetched read.packages)
              reports

      by_entries :
          (entries : Dictionary Text Entry) → survey.entries ≡ entries → AllVerified report.packages
      by_entries [] empty =
          let done = ok_injective (rw (verify_surveyed, empty) at h) in
          absurd (
            not_found_report-exit request name _ _ _
              (subst (λ r. verify_exit_status r ≡ 0) (sym done) zero_exit))
      by_entries (entry ∷ entries) some_entries =
          let (reports, first, last) =
            process-ok
              (verify_entries sha256_hex operation_key L V request fetched survey.facts []
                (map (λ e. e.1) (entry ∷ entries)))
              _ s (rw (verify_surveyed, some_entries) at h) in
          let done = ok_injective last in
          let level =
            report_of-exit request name _ _ _ _ []
              (subst (λ r. verify_exit_status r ≡ 0) (sym done) zero_exit) in
          let (r, rs, form) =
            verify_entries-cons request fetched survey.facts [] entry.1 _ s reports first in
          subst (λ (x : VerifyReport). AllVerified x.packages) done
            (
              (λ empty.
                  sort-cons compare_reports r rs
                    (subst (λ x. sort compare_reports x ≡ []) (sym form) empty)),
              sorted-AreVerified request fetched read.packages reports asked level (
                  verify_entries-Reaches sha256_hex operation_key L V start request fetched
                    read.packages survey.facts [] _ s reports reached merged
                    (AreEntries-map (IsRead request.segment read.packages) (entry ∷ entries) (
                      subst (AreEntries (IsRead request.segment read.packages)) some_entries shown))
                    known (λ k v e. absurd (none_ne_some e)) first),
            )
