-- ===== src/Tests/Publisher.antt =====
-- Runs of the publisher: the code of src/publisher/.
use compact_multi_part_event.Prelude.{◌≡◌, refl, none, some, [], ◌∷◌, Text, text, list_eq, ok}
use compact_multi_part_event.Bytes.{same_bytes, bytes_equal}
use compact_multi_part_event.Event.{event_value, overwrite}
use compact_multi_part_event.Guard.{
  assert_package_intent, check_intent, check_actions, check_action, check_call, check_transcript,
  logged_value, only_value, emits_part, check_each, check_segments, package_stage,
  assert_transaction_packages,
}
use compact_multi_part_event.Guard.Soundness.{assert_package_intent-IsPackageIntent}
use compact_multi_part_event.Guard.Spec.{IsPackageIntent}
use compact_multi_part_event.Guard.Transactions.{IsPackaged, assert_transaction_packages-IsPackaged}
use compact_multi_part_event.Transaction.{
  entry_point_text, atom_width, only_atom, cell_atom, little_endian_number, decode_misc_value,
  logged_item, logged_event, logged_from, logged_events,
}
use compact_multi_part_event.Tests.Toy.{toy_ledger, toy_tx, toy_package}

pub toy_passes :
    (stage : Text)
    → assert_package_intent toy_ledger toy_tx toy_package stage (some (2 ∷ 3 ∷ [])) ≡ ok tt
unfolding assert_package_intent check_intent check_actions check_action check_call check_transcript
    logged_value only_value emits_part event_value overwrite entry_point_text atom_width only_atom
    cell_atom little_endian_number decode_misc_value logged_item logged_event logged_from
    logged_events same_bytes bytes_equal text list_eq
toy_passes stage = refl

assert_package_intent_example : IsPackageIntent toy_ledger toy_tx toy_package (some (2 ∷ 3 ∷ []))
assert_package_intent_example =
    assert_package_intent-IsPackageIntent toy_ledger toy_tx toy_package (text "s")
      (some (2 ∷ 3 ∷ [])) (toy_passes (text "s"))

pub toy_transaction_passes :
    (stage : Text)
    → assert_transaction_packages toy_ledger toy_tx
        (toy_package ∷ [])
        stage
        (some ((2 ∷ 3 ∷ []) ∷ []))
      ≡ ok tt
unfolding assert_transaction_packages check_each check_segments package_stage
toy_transaction_passes stage = rw (toy_passes stage) refl

pub toy_passes_unfrozen :
    (stage : Text)
    → assert_transaction_packages toy_ledger toy_tx (toy_package ∷ []) stage none ≡ ok tt
unfolding assert_transaction_packages check_each check_segments package_stage assert_package_intent
    check_intent check_actions check_action check_call check_transcript logged_value only_value
    emits_part event_value overwrite entry_point_text atom_width only_atom cell_atom
    little_endian_number decode_misc_value logged_item logged_event logged_from logged_events
    same_bytes bytes_equal text list_eq
toy_passes_unfrozen stage = refl

assert_transaction_packages_example :
    IsPackaged toy_ledger toy_tx (toy_package ∷ []) (some ((2 ∷ 3 ∷ []) ∷ []))
assert_transaction_packages_example =
    assert_transaction_packages-IsPackaged toy_ledger toy_tx (toy_package ∷ []) (text "s")
      (some ((2 ∷ 3 ∷ []) ∷ [])) (toy_transaction_passes (text "s"))
