-- ===== src/Verification/Run.antt =====
-- src/cli/verify.ts: `verifyPackages`.
pub mod Reached
pub mod Reports
pub mod Verified
pub mod Listed
pub mod Exit
use compact_multi_part_event.Prelude.{
  ℕ, compare, Ordering, Bool, true, false, not, ◌&&◌, ◌||◌, Option, none, some, List, [], ◌∷◌, ◌++◌,
  map, Text, Bytes, text, decimal, leb, ltb, nat_eq, length, every, min, if◌then◌else◌, ◌==◌,
  text_eq, Dictionary, lookup, store, sort, or_else, Error, range_error, Result, ok, throw, guard,
}
use compact_multi_part_event.Bytes.{bytes_to_hex, compare_code_units}
use compact_multi_part_event.Event.{event_name, event_name_text}
use compact_multi_part_event.Finalize.{or_some}
use compact_multi_part_event.Ledger.{Ledger}
use compact_multi_part_event.Packages.{
  Package, ReadOutput, is_address, max_safe_integer, limits_or_default,
}
use compact_multi_part_event.Process.{Process, pure, lift, ◌>>=◌, ◌>>◌}
use compact_multi_part_event.Transaction.{is_empty, is_accepted, includes}
use compact_multi_part_event.Verification.Checks.{
  payload_or_empty, or_raw, parts_of, package_check, at_block, key_check, fact_transaction,
  level_two_checks,
}
use compact_multi_part_event.Verification.Facts.{
  entry_key, read_target, in_scope, add_entries, Fetched, fetch_transaction, Survey, survey_hashes,
}
use compact_multi_part_event.Verification.Levels.{Check, level_of}
use compact_multi_part_event.Verification.Records.{
  VerifyTarget, BlockRef, SourceTransaction, SourceEvents, VerifySource, VerifyRequest,
  PackageReport, Mode, one_transaction, listing, VerifyReport, Entry, TransactionFacts,
}
use compact_multi_part_event.Verification.Requests.{
  check_segment, is_some, mode_of, height_or_last, compare_reports, lowest_level, distinct,
  or_listed, scope_text, issues_of, or_block, block_of, status_of, state_key, accepted_payload,
  map_payload, validate_request,
}

module _ (sha256_hex : Bytes → Text) (operation_key : Bytes → Text → Result (Option Bytes))
    (L : Ledger) (V : VerifySource) where
  open L use {Tx}
  open V use {State, Call, description, events, transaction, contract_state, node_holds}

  -- The report from its computed parts, over `base`.
  unfoldable pub report_of :
      VerifyRequest
      → Bytes
      → (level : ℕ) → (not_found : Bool) → (events other_events : ℕ) → List PackageReport
      → (notes : List Text) → VerifyReport
  report_of request name level not_found count others packages notes = record {
    source = description;
    mode = mode_of request.transaction_hash;
    network = request.target.network;
    contract = request.target.contract;
    name = event_name_text name;
    name_hex = bytes_to_hex name;
    entry_point = request.target.entry_point;
    requested_level = request.level;
    level = level;
    not_found = not_found;
    transaction_hash = request.transaction_hash;
    segment = request.segment;
    events = count;
    other_events = others;
    expected_verifier_key_sha256 =
        if ltb request.level 3 then none else map_payload sha256_hex request.expected_verifier_key;
    packages = packages;
    notes = notes;
  }

  unfoldable pub not_found_report :
      VerifyRequest → Bytes → Text → (events other_events : ℕ) → VerifyReport
  not_found_report request name note count others =
      report_of request name 0 true count others [] (note ∷ [])

  -- The map `states`, which `stateAt` fills.
  abbrev pub States : Type 0
  States = Dictionary Text (Option Bytes)

  unfoldable pub state_at :
      Text → States → Option BlockRef → Process State Call (Option Bytes × States)
  state_at contract states block = elim (lookup (state_key block) states) [
    | some state ↦ pure (state, states)
    | none ↦ do
      state ← contract_state contract block
      pure (state, store (state_key block) state states)
  ]

  -- The checks that Level 3 adds to those before.
  unfoldable pub level_three_checks :
      VerifyRequest
      → States
      → Option BlockRef
      → List Check
      → Process State Call (List Check × States)
  level_three_checks request states block checks = elim request.expected_verifier_key [
    | none ↦ pure ([], states)
    | some expected ↦ elim (leb 3 request.level && nat_eq (level_of checks 2) 2) [
      | false ↦ pure ([], states)
      | true ↦ do
        (state, states') ← state_at request.target.contract states block
        pure (
          key_check sha256_hex operation_key request.target.entry_point (at_block block) expected
                state
              ∷ [],
          states',
        )
    ]
  ]

  unfoldable pub package_report :
      VerifyRequest
      → Entry
      → Option (TransactionFacts Tx)
      → Option BlockRef
      → List Check
      → PackageReport
  package_report request entry fact block checks =
      let payload = accepted_payload entry.from_events in
      record {
        transaction_hash = entry.transaction_hash;
        segment = entry.segment;
        block = block;
        status = status_of (fact_transaction L fact);
        parts = parts_of (or_raw entry.from_events entry.raw_only);
        payload_bytes = length (payload_or_empty payload);
        payload_sha256 = map_payload sha256_hex payload;
        payload_hex = map_payload bytes_to_hex payload;
        level = level_of checks request.level;
        checks = checks;
      }

  -- One round of the loop over the entries.
  unfoldable pub verify_entry :
      VerifyRequest
      → SourceEvents
      → Dictionary Text (TransactionFacts Tx)
      → States
      → Entry
      → Process State Call (PackageReport × States)
  verify_entry request fetched facts states entry = do
    let first =
        package_check sha256_hex entry (issues_of (lookup entry.transaction_hash fetched.issues))
    let fact = lookup entry.transaction_hash facts
    let block =
        or_block (block_of (fact_transaction L fact)) (lookup entry.transaction_hash fetched.blocks)
    second ← lift (level_two_checks L request entry fact first)
    (third, states') ← level_three_checks request states block (first ∷ second)
    pure (package_report request entry fact block ((first ∷ second) ++ third), states')

  unfoldable pub verify_entries :
      VerifyRequest
      → SourceEvents
      → Dictionary Text (TransactionFacts Tx)
      → States
      → List Entry
      → Process State Call (List PackageReport)
  verify_entries request fetched facts states [] = pure []
  verify_entries request fetched facts states (entry ∷ entries) = do
    (report, states') ← verify_entry request fetched facts states entry
    reports ← verify_entries request fetched facts states' entries
    pure (report ∷ reports)

  -- The request's transaction, fetched first.
  unfoldable pub fetch_requested : Option Text → Process State Call (Bool × Fetched L V)
  fetch_requested none = pure (true, [])
  fetch_requested (some hash) = do
    (found, transactions) ← fetch_transaction L V [] hash
    pure (is_some found, transactions)

  abbrev pub Surveyed : Type 0
  Surveyed = Survey L V

  unfoldable pub survey_entries :
      VerifyRequest → Bytes → Dictionary Text Entry → Fetched L V → Process State Call Surveyed
  survey_entries request name entries transactions =
      let start : Surveyed = record {
        facts = [];
        entries = entries;
        transactions = transactions;
      } in
      elim (leb 2 request.level) [
        | false ↦ pure start
        | true ↦
            survey_hashes L V request name (limits_or_default request.limits) start
              (or_listed request.transaction_hash entries)
      ]

  -- The report of the entries.
  unfoldable pub verify_surveyed :
      VerifyRequest → Bytes → SourceEvents → ReadOutput → Surveyed → Process State Call VerifyReport
  verify_surveyed request name fetched read survey = elim survey.entries [
    | [] ↦ pure (
        not_found_report request name
          (text "no package of ("
            ++ request.target.contract
            ++ text ", "
            ++ event_name_text name
            ++ text ") "
            ++ scope_text request fetched.count)
          fetched.count read.ignored)
    | entry ∷ entries ↦ do
      reports ← verify_entries request fetched survey.facts [] (map (λ e. e.1) (entry ∷ entries))
      let packages = sort compare_reports reports
      pure (
          report_of request name (lowest_level request.level packages) false fetched.count
            read.ignored packages [])
  ]

  unfoldable pub verify_fetched :
      VerifyRequest → Bytes → Fetched L V → Process State Call VerifyReport
  verify_fetched request name transactions = do
    fetched ← events request.target.contract request.transaction_hash
    read ← lift (read_target request.target name (limits_or_default request.limits) fetched.events)
    survey ←
        survey_entries request name (add_entries [] (in_scope request.segment read.packages))
          transactions
    verify_surveyed request name fetched read survey

  abbrev pub hash_or_empty : Option Text → Text
  hash_or_empty none = []
  hash_or_empty (some hash) = hash

  unfoldable pub verify_packages : VerifyRequest → Process State Call VerifyReport
  verify_packages request = do
    name ← lift (validate_request request)
    (known, transactions) ← fetch_requested request.transaction_hash
    elim known [
      | false ↦ pure (
          not_found_report request name
            (text "transaction "
              ++ hash_or_empty request.transaction_hash
              ++ text " is not known to the source (not indexed yet, or a wrong hash)")
            0 0)
      | true ↦ verify_fetched request name transactions
    ]
