-- ===== src/Tests/Verifying.antt =====
-- Runs of the verification of packages: the code of src/cli/.
use compact_multi_part_event.Prelude.{
  ℕ, ◌≡◌, refl, true, false, none, some, List, [], ◌∷◌, Option, some_injective, Text, Bytes, text,
  Result, ok, throw, text_eq,
}
use compact_multi_part_event.Event.{Name}
use compact_multi_part_event.Tests.Toy.{toy_name, toy_contract, toy_ledger, toy_tx}
use compact_multi_part_event.Verification.Levels.{Check}
use compact_multi_part_event.Verification.Levels.Highest.{IsHighest, level_of-IsHighest}
use compact_multi_part_event.Verification.Records.{VerifySource, VerifyRequest, VerifyReport}
use compact_multi_part_event.Verification.Run.Exit.{verify_packages-AreVerified}
use compact_multi_part_event.Verification.Run.Reports.{AreVerified}
use compact_multi_part_event.Verification.Sources.{SavedData}
use compact_multi_part_event.Verification.Keys.{
  compare_keys, deployed_verifier_key, compare_deployed_verifier_key,
}
use compact_multi_part_event.Verification.Levels.{level_from, level_of}
use compact_multi_part_event.Verification.Records.{verify_exit_status}
use compact_multi_part_event.Verification.Sources.{saved_events, saved_transaction, source_of}
use compact_multi_part_event.Verification.Facts.{
  status_check, hash_check, entry_key, read_target, add_entries, add_raw_entry, add_raw_entries,
  fetch_transaction, node_checks, transaction_checks, raw_packages, survey_found, survey_hashes,
}
use compact_multi_part_event.Verification.Checks.{
  package_check, placed_check, placement_checks, comparison_check, key_check, decoded_checks,
  level_two_checks,
}
use compact_multi_part_event.Verification.Run.{
  report_of, state_at, level_three_checks, package_report, verify_entry, verify_entries,
  fetch_requested, survey_entries, verify_surveyed, verify_fetched, verify_packages,
}
use compact_multi_part_event.Verification.Requests.{check_segment, lowest_level, validate_request}
use compact_multi_part_event.Packages.{
  collect_names, delivery_of, name_of, candidates_for, group_for, deliver, read_event, read_events,
  prepare, read_packages, is_address, validate_reader_limits, check_event, group_key, survey_value,
  survey_delivery, survey, part_at, package_of, evaluate,
}
use compact_multi_part_event.Transaction.{
  entry_point_text, atom_width, only_atom, cell_atom, little_endian_number, decode_misc_value,
  logged_item, logged_event, logged_from, logged_events, read_logged, read_program, ordered_intents,
  read_transcript, visit_call, visit_action, visit_actions, activity_of, contract_activity,
  number_parts, part_events_from_transaction, includes, emitting_issues, other_circuit_issues,
  expected_payloads, part_issues, payload_issues, named_parts, emitting_calls, activity_issues,
  check_placement, deserialize_first, deserialize_transaction,
}
use compact_multi_part_event.Event.{overwrite, event_name, restore_event_value}
use compact_multi_part_event.Bytes.{same_bytes, bytes_equal, hex_digit, bytes_to_hex}
use compact_multi_part_event.Prelude.{list_eq, sort, text, decimal}
use compact_multi_part_event.Json.{escape_unit, escape, quote, stringify}

abbrev toy_checks : List Check
toy_checks =
    record { level = 1; passed = true; message = [] }
    ∷ record { level = 2; passed = false; message = [] }
    ∷ []

level_of_example : IsHighest toy_checks 3 (level_of toy_checks 3)
level_of_example = level_of-IsHighest toy_checks 3

abbrev toy_saved : SavedData
toy_saved = record {
  network = text "net";
  raw = 7 ∷ [];
  status = text "SUCCESS";
  transaction_hash = none;
  contract_state = some (9 ∷ []);
  block = none;
}

abbrev toy_source : VerifySource
toy_source = source_of toy_ledger toy_saved toy_tx (text "hash")

abbrev toy_request : VerifyRequest
toy_request = record {
  target = record {
    network = text "net";
    contract = toy_contract;
    name = Name.of_bytes toy_name;
    entry_point = text "emit";
  };
  level = 3;
  transaction_hash = some (text "hash");
  segment = none;
  expected_verifier_key = some (1 ∷ []);
  cross_check_node = false;
  limits = none;
}

abbrev toy_digest : Bytes → Text
toy_digest bytes = []

-- The key of every state is the byte 1.
abbrev toy_key : Bytes → Text → Result (Option Bytes)
toy_key state name = ok (some (1 ∷ []))

abbrev toy_start : toy_source.State
unfolding source_of
toy_start = tt

abbrev toy_run : Result VerifyReport
unfolding source_of
toy_run = (verify_packages toy_digest toy_key toy_ledger toy_source toy_request toy_start).0

abbrev exit_of : Result VerifyReport → Option ℕ
exit_of (ok report) = some (verify_exit_status report)
exit_of (throw e) = none

toy_exit : exit_of toy_run ≡ some 0
unfolding compare_keys deployed_verifier_key compare_deployed_verifier_key level_from level_of
    verify_exit_status saved_events saved_transaction source_of status_check hash_check entry_key
    read_target add_entries add_raw_entry add_raw_entries fetch_transaction node_checks
    transaction_checks raw_packages survey_found survey_hashes package_check placed_check
    placement_checks comparison_check key_check decoded_checks level_two_checks check_segment
    lowest_level validate_request report_of state_at level_three_checks package_report verify_entry
    verify_entries fetch_requested survey_entries verify_surveyed verify_fetched verify_packages
    collect_names delivery_of name_of candidates_for group_for deliver read_event read_events
    prepare read_packages is_address validate_reader_limits check_event group_key survey_value
    survey_delivery survey part_at package_of evaluate entry_point_text atom_width only_atom
    cell_atom little_endian_number decode_misc_value logged_item logged_event logged_from
    logged_events read_logged read_program ordered_intents read_transcript visit_call visit_action
    visit_actions activity_of contract_activity number_parts part_events_from_transaction includes
    emitting_issues other_circuit_issues expected_payloads part_issues payload_issues named_parts
    emitting_calls activity_issues check_placement deserialize_first deserialize_transaction
    overwrite event_name restore_event_value same_bytes bytes_equal hex_digit bytes_to_hex list_eq
    sort text decimal escape_unit escape quote stringify
toy_exit = refl

exit_of-ok :
    (r : Result VerifyReport)
    → exit_of r ≡ some 0
    → (report : VerifyReport) × (r ≡ ok report) × (verify_exit_status report ≡ 0)
exit_of-ok (ok report) h = (report, refl, some_injective h)
exit_of-ok (throw e) h = cc

verify_packages_example :
    AreVerified toy_digest toy_key toy_ledger toy_source toy_start toy_request
      (exit_of-ok toy_run toy_exit).0.packages
unfolding source_of
verify_packages_example =
    verify_packages-AreVerified toy_digest toy_key toy_ledger toy_source toy_start toy_request
      (exit_of-ok toy_run toy_exit).0 (exit_of-ok toy_run toy_exit).1
      (exit_of-ok toy_run toy_exit).2
