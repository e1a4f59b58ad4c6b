-- ===== src/Tests/Composing.antt =====
-- Runs of the composition: src/publisher/compose.ts.
use compact_multi_part_event.Prelude.{◌≡◌, refl, false, none, [], ◌∷◌, text, list_eq, ok}
use compact_multi_part_event.Bytes.{same_bytes, bytes_equal}
use compact_multi_part_event.Compose.{
  compose_packages, frozen_action, frozen_actions, frozen_transcripts, first_params, check_block,
  built_of, build_packages_transaction,
}
use compact_multi_part_event.Compose.Built.{IsBuilt, build_packages_transaction-IsBuilt}
use compact_multi_part_event.Compose.Config.{
  PublisherConfig, positive_integer, canonical_key_location, resolve_publisher_config, check_widths,
  preflight_package,
}
use compact_multi_part_event.Compose.Intents.{
  event_bytes, check_events, check_execution, pre_partition_call_for, pre_calls, Added,
  only_physical, fresh_segment, add_attempts, add_guaranteed_intent,
}
use compact_multi_part_event.Compose.Intents.Fresh.{IsAdded, add_guaranteed_intent-IsAdded}
use compact_multi_part_event.Compose.Loop.{
  request_label, preflight, read_snapshots, execute_parts, verifier_key_for, snapshot_of,
  compose_package,
}
use compact_multi_part_event.Compose.Runtime.{StateSource, PackageRequest}
use compact_multi_part_event.Event.{of_bytes, event_name, event_value, overwrite}
use compact_multi_part_event.Dates.{date_at, new_date}
use compact_multi_part_event.Finalize.{BuiltTransaction}
use compact_multi_part_event.Guard.{
  assert_package_intent, check_intent, check_actions, check_action, check_call, check_transcript,
  logged_value, only_value, emits_part, check_each, check_segments, package_stage,
  assert_transaction_packages,
}
use compact_multi_part_event.Packages.{is_address}
use compact_multi_part_event.Transaction.{
  entry_point_text, atom_width, only_atom, cell_atom, little_endian_number, decode_misc_value,
  logged_item, logged_event, logged_from, logged_events,
}
use compact_multi_part_event.Tests.Toy.{
  toy_ledger, toy_assembly, toy_contract, toy_name, toy_part, toy_value, toy_intent,
}

abbrev toy_added : Added toy_ledger toy_assembly
toy_added = record { built = (1, toy_intent) ∷ []; segment = 1; attempts = 2 }

toy_adds :
    add_guaranteed_intent toy_ledger toy_assembly [] (λ seed. ok ([], seed)) 0 (date_at 1000) 8 0
    ≡ ok (toy_added, 2)
unfolding add_guaranteed_intent add_attempts fresh_segment only_physical
toy_adds = refl

-- The first draw is segment 0, the second is kept.
add_guaranteed_intent_example :
    IsAdded toy_ledger toy_assembly [] (λ seed. ok ([], seed)) 0 (date_at 1000) 8 0 (toy_added, 2)
add_guaranteed_intent_example =
    add_guaranteed_intent-IsAdded toy_ledger toy_assembly [] (λ seed. ok ([], seed)) 0
      (date_at 1000) 8 0 (toy_added, 2) toy_adds

abbrev toy_source : StateSource toy_ledger
toy_source = record {
  latest_block = ok (record { hash = text "b"; height = 1; timestamp_seconds = 1 });
  contract_state_at = λ address hash. ok (record { contract_state = []; ledger_parameters = 0 });
}

abbrev toy_config : PublisherConfig
toy_config = record {
  network = text "net";
  coin_public_key = text "coin";
  max_parts = none;
  ttl_seconds = none;
  max_ttl_seconds = none;
  max_assembly_attempts = none;
  key_location = none;
}

abbrev toy_request : PackageRequest toy_ledger toy_assembly
toy_request = record {
  contract = toy_contract;
  name = of_bytes toy_name;
  emission = record {
    entry_point = text "emit";
    emit_part = λ context part. ok (record {
      traces =
          record {
            contract_address = context.contract;
            circuit_id = context.entry_point;
            has_communication = false;
            shielded_inputs = 0;
            shielded_outputs = 0;
            proof_data = tt;
          }
          ∷ [];
      events =
          record { address = context.contract; event_type = text "misc"; content = toy_value part }
          ∷ [];
    });
    create_private_state = λ index. tt;
  };
  parts = toy_part 2 ∷ toy_part 3 ∷ [];
}

abbrev toy_result : BuiltTransaction toy_ledger
toy_result = record {
  built = (1, toy_intent) ∷ [];
  packages =
      record {
        network = text "net";
        contract = toy_contract;
        entry_point = text "emit";
        name = toy_name;
        segment = 1;
        parts = toy_part 2 ∷ toy_part 3 ∷ [];
      }
      ∷ [];
  frozen_transcripts = (2 ∷ 3 ∷ []) ∷ [];
  block = record { hash = text "b"; height = 1; timestamp_seconds = 1 };
  ledger_parameters = 0;
  ttl = date_at 1201000;
  assembly_attempts = 2 ∷ [];
}

toy_builds :
    (build_packages_transaction toy_ledger toy_assembly toy_source toy_config
      (toy_request ∷ [])
      0).0
    ≡ ok toy_result
unfolding build_packages_transaction new_date resolve_publisher_config positive_integer
    canonical_key_location preflight preflight_package check_widths request_label event_name
    check_block read_snapshots first_params compose_packages compose_package snapshot_of
    verifier_key_for execute_parts check_execution check_events event_bytes pre_calls
    pre_partition_call_for add_guaranteed_intent add_attempts fresh_segment only_physical built_of
    frozen_transcripts frozen_actions frozen_action assert_transaction_packages check_each
    check_segments package_stage assert_package_intent check_intent check_actions check_action
    check_call check_transcript logged_value only_value emits_part event_value overwrite
    entry_point_text atom_width only_atom cell_atom little_endian_number decode_misc_value
    logged_item logged_event logged_from logged_events same_bytes bytes_equal text list_eq
    is_address
toy_builds = refl

build_packages_transaction_example :
    IsBuilt toy_ledger toy_assembly toy_source toy_config (toy_request ∷ []) toy_result
build_packages_transaction_example =
    build_packages_transaction-IsBuilt toy_ledger toy_assembly toy_source toy_config
      (toy_request ∷ []) 0 toy_result toy_builds
