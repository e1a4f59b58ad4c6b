-- ===== src/Verification/Run/Exit.antt =====
-- `verifyPackages` of src/cli/verify.ts: what the exit status 0 of its report stands for.
use compact_multi_part_event.Prelude.{
  ◌&&◌, ◌≡◌, ◌≤◌, sym, subst, Bool, Option, none, some, ok_injective, List, [], Text, Bytes,
  Bool-cases, inl, inr, none_ne_some, text_eq, Dictionary, leb, Result, ok, arith,
}
use compact_multi_part_event.Ledger.{Ledger}
use compact_multi_part_event.Packages.{
  Package, PartEvent, ReaderLimits, ReadOutput, limits_or_default, accepted, merge_parts,
}
use compact_multi_part_event.Packages.Output.{read_packages-merged}
use compact_multi_part_event.Packages.Positions.{Member}
use compact_multi_part_event.Verification.Facts.Entries.{
  IsRead, AreEntries, in_scope-IsRead, add_entries-AreEntries, survey_hashes-AreEntries,
}
use compact_multi_part_event.Process.{lift, process-ok}
use compact_multi_part_event.Verification.Facts.Surveyed.{
  AreFacts, AreFetched, survey_hashes-AreFacts, fetch_transaction-IsReported,
}
use compact_multi_part_event.Verification.Facts.{
  Survey, Fetched, fetch_transaction, read_target, add_entries, in_scope,
}
use compact_multi_part_event.Verification.Records.{
  VerifyTarget, VerifySource, VerifyRequest, VerifyReport, verify_exit_status, Entry,
}
use compact_multi_part_event.Verification.Run.{
  fetch_requested, survey_entries, verify_fetched, verify_packages,
}
use compact_multi_part_event.Verification.Requests.{validate_request}
use compact_multi_part_event.Verification.Facts.Reached.{Reached, started, after_events}
use compact_multi_part_event.Verification.Run.Reached.{fetch_requested-Stays, survey_entries-Stays}
use compact_multi_part_event.Verification.Run.Reports.{AreVerified}
use compact_multi_part_event.Verification.Run.Listed.{
  not_found_report-exit, verify_surveyed-AreVerified,
}

read_target-merged :
    (target : VerifyTarget) (name : Bytes) (limits : ReaderLimits) (events : List PartEvent)
    (read : ReadOutput) (pkg : Package)
    → read_target target name limits events ≡ ok read
    → Member pkg read.packages
    → pkg.status ≡ accepted
    → pkg.payload ≡ some (merge_parts pkg.parts)
unfolding read_target
read_target-merged target name limits events read pkg e = read_packages-merged events _ read pkg e

module _ (sha256_hex : Bytes → Text) (operation_key : Bytes → Text → Result (Option Bytes))
    (L : Ledger) (V : VerifySource) (start : V.State) where
  open L use {Tx}
  open V use {State}

  validate_request-level :
      (request : VerifyRequest) (name : Bytes)
      → validate_request request ≡ ok name
      → 1 ≤ request.level
  unfolding validate_request
  validate_request-level request name h =
      elim (Bool-cases (leb 1 request.level && leb request.level 3)) [
        | inl fits ↦ ground (arith, fits)
        | inr outside ↦ let clash = rw (validate_request, outside) at h in cc
      ]

  fetch_requested-AreFetched :
      (hash : Option Text) (s : State) (out : Bool × Fetched L V)
      → Reached V start s
      → (fetch_requested sha256_hex operation_key L V hash s).0 ≡ ok out
      → AreFetched L V start out.1
  unfolding fetch_requested
  fetch_requested-AreFetched none s out reached h =
      subst (λ x. AreFetched L V start x.1) (ok_injective h) (λ k v e. absurd (none_ne_some e))
  fetch_requested-AreFetched (some hash) s out reached h =
      let (got, first, last) = process-ok (fetch_transaction L V [] hash) _ s h in
      subst (λ x. AreFetched L V start x.1) (ok_injective last)
        (fetch_transaction-IsReported L V start [] hash s got reached
          (λ k v e. absurd (none_ne_some e)) first).1

  survey_entries-AreFacts :
      (request : VerifyRequest) (name : Bytes) (entries : Dictionary Text Entry)
      (fetched : Fetched L V) (s : State) (survey : Survey L V)
      → Reached V start s
      → AreFetched L V start fetched
      → (survey_entries sha256_hex operation_key L V request name entries fetched s).0 ≡ ok survey
      → AreFacts L V start survey.facts
  unfolding survey_entries
  survey_entries-AreFacts request name entries fetched s survey reached from h =
      let empty : Survey L V = record { facts = []; entries = entries; transactions = fetched } in
      elim (Bool-cases (leb 2 request.level)) [
        | inl high ↦
            survey_hashes-AreFacts L V start request name _ _ empty survey s reached
              (λ k v e. absurd (none_ne_some e)) from (rw (survey_entries, high) at h)
        | inr low ↦
            subst (λ (x : Survey L V). AreFacts L V start x.facts)
              (ok_injective (rw (survey_entries, low) at h)) (λ k v e. absurd (none_ne_some e))
      ]

  survey_entries-AreEntries :
      (P : Package → Type 0) (request : VerifyRequest) (name : Bytes)
      (entries : Dictionary Text Entry) (fetched : Fetched L V) (s : State) (survey : Survey L V)
      → AreEntries P entries
      → (survey_entries sha256_hex operation_key L V request name entries fetched s).0 ≡ ok survey
      → AreEntries P survey.entries
  unfolding survey_entries
  survey_entries-AreEntries P request name entries fetched s survey shown h =
      let empty : Survey L V = record { facts = []; entries = entries; transactions = fetched } in
      elim (Bool-cases (leb 2 request.level)) [
        | inl high ↦
            survey_hashes-AreEntries P L V request name _ _ empty survey s shown
              (rw (survey_entries, high) at h)
        | inr low ↦
            subst (λ (x : Survey L V). AreEntries P x.entries)
              (ok_injective (rw (survey_entries, low) at h)) shown
      ]

  verify_fetched-AreVerified :
      (request : VerifyRequest) (name : Bytes) (fetched : Fetched L V) (s : State)
      (report : VerifyReport)
      → validate_request request ≡ ok name
      → Reached V start s
      → AreFetched L V start fetched
      → (verify_fetched sha256_hex operation_key L V request name fetched s).0 ≡ ok report
      → verify_exit_status report ≡ 0
      → AreVerified sha256_hex operation_key L V start request report.packages
  unfolding verify_fetched
  verify_fetched-AreVerified request name fetched s report valid reached from h zero_exit =
      let (got, answered, h1) =
        process-ok (V.events request.target.contract request.transaction_hash) _ s h in
      let (read, reads, h2) =
        process-ok
          (lift (read_target request.target name (limits_or_default request.limits) got.events)) _ _
          h1 in
      let (survey, h3, h4) =
        process-ok
          (survey_entries sha256_hex operation_key L V request name
            (add_entries [] (in_scope request.segment read.packages)) fetched)
          _ _ h2 in
      let reached' = after_events request.target.contract request.transaction_hash reached in
      let (some_reports, each) =
        verify_surveyed-AreVerified sha256_hex operation_key L V start request name got read survey
          _ report (validate_request-level request name valid)
          (survey_entries-Stays sha256_hex operation_key L V start request name _ fetched _
            reached')
          (survey_entries-AreEntries _ request name _ fetched _ survey
            (add_entries-AreEntries (IsRead request.segment read.packages)
              (in_scope request.segment read.packages) []
              (in_scope-IsRead request.segment read.packages) tt)
            h3)
          (λ pkg m e. read_target-merged request.target name _ got.events read pkg reads m e)
          (survey_entries-AreFacts request name _ fetched _ survey reached' from h3) h4 zero_exit in
      record {
        name = name;
        valid = valid;
        asked_in = s;
        reached = reached;
        fetched = got;
        answered = answered;
        read = read;
        reads = reads;
        some_reports = some_reports;
        each = each;
      }

  -- If a verification answers a report whose exit status is 0, then, after calls of the source from
  -- the first state, the source answered the request's events, which were read under the validated
  -- name and the limits, and the report lists at least one package. Each is an accepted package
  -- among those read, of the segment that is asked for, if one is; its report has its hash, its
  -- segment, its number of parts and the hex of its merged parts, and no event of that hash failed
  -- to convert. From Level 2 on, the source, after such calls, answered the package's hash with an
  -- included transaction whose bytes deserialize, whose own hash, if it has one, is that hash, and
  -- in which the placement of the package has no issue. At Level 3, it answered, after such calls,
  -- the report's block with a contract state whose key for the emitting circuit is the expected
  -- one.
  pub verify_packages-AreVerified :
      (request : VerifyRequest) (report : VerifyReport)
      → (verify_packages sha256_hex operation_key L V request start).0 ≡ ok report
      → verify_exit_status report ≡ 0
      → AreVerified sha256_hex operation_key L V start request report.packages
  unfolding verify_packages
  verify_packages-AreVerified request report h zero_exit =
      let (name, valid, h1) = process-ok (lift (validate_request request)) _ start h in
      let (known, fetched, h2) =
        process-ok (fetch_requested sha256_hex operation_key L V request.transaction_hash) _ _ h1 in
      elim (Bool-cases known.0) [
        | inl is_known ↦
            verify_fetched-AreVerified request name known.1 _ report valid
              (fetch_requested-Stays sha256_hex operation_key L V start request.transaction_hash
                start started)
              (fetch_requested-AreFetched request.transaction_hash _ known started fetched)
              (rw is_known at h2) zero_exit
        | inr unknown ↦
            let done = ok_injective (rw unknown at h2) in
            absurd (
              not_found_report-exit sha256_hex operation_key L V start request name _ 0 0
                (subst (λ r. verify_exit_status r ≡ 0) (sym done) zero_exit))
      ]
