-- ===== src/Tests/Finalizing.antt =====
-- Runs of the finalization and the submission: src/publisher/finalize.ts.
use compact_multi_part_event.Prelude.{◌≡◌, refl, Bool, true, none, [], ◌∷◌, Text, text, list_eq, ok}
use compact_multi_part_event.Bytes.{
  bytes_to_hex, hex_digit, hex_to_bytes, is_hex_digit, digit_value, decode_pairs,
}
use compact_multi_part_event.Finalize.{
  expected_from_record, expected_package, expected_packages, parts_from_hex,
  require_ledger_transaction, check_dimensions, block_fullness_check, deserialize_final,
  intent_hash_at, package_record, package_records, record_of, check_answer, save,
  finalize_transaction_packages, differing_intent, locate_checked, locate_record,
}
use compact_multi_part_event.Dates.{iso_text}
use compact_multi_part_event.Finalize.Location.{IsLocated, locate_record-IsLocated}
use compact_multi_part_event.Finalize.Stages.{
  IsFinalized, finalize_transaction_packages-IsFinalized,
}
use compact_multi_part_event.Finalize.Submission.{IsSubmission, submit_record-IsRecorded}
use compact_multi_part_event.Transaction.{includes}
use compact_multi_part_event.Tests.Toy.{
  toy_ledger, toy_tx, toy_package, toy_built, toy_providers, toy_options, toy_record,
}
use compact_multi_part_event.Tests.Publisher.{toy_transaction_passes, toy_passes_unfrozen}

toy_deserializes :
    (require_proofs : Bool) (stage : Text)
    → deserialize_final toy_ledger (7 ∷ []) true stage ≡ ok toy_tx
unfolding deserialize_final list_eq
toy_deserializes require_proofs stage = refl

toy_finalizes :
    (finalize_transaction_packages toy_ledger toy_providers toy_built toy_options).0 ≡ ok toy_record
unfolding finalize_transaction_packages check_answer save record_of require_ledger_transaction
    block_fullness_check check_dimensions deserialize_final package_records package_record
    intent_hash_at list_eq bytes_to_hex hex_digit text iso_text
toy_finalizes =
    rw
      (
        toy_transaction_passes (text "before proving"),
        toy_transaction_passes (text "after proving"),
        toy_transaction_passes (text "after balancing"),
        toy_transaction_passes (text "after serialization"),
      )
      refl

finalize_transaction_packages_example :
    IsFinalized toy_ledger toy_providers toy_built toy_options toy_record
finalize_transaction_packages_example =
    finalize_transaction_packages-IsFinalized toy_ledger toy_providers toy_built toy_options
      toy_record toy_finalizes

toy_describes : expected_from_record toy_record ≡ ok (toy_package ∷ [])
unfolding expected_from_record expected_packages expected_package parts_from_hex bytes_to_hex
    hex_digit hex_to_bytes is_hex_digit digit_value decode_pairs
toy_describes = refl

submit_record_example : IsSubmission toy_ledger (λ tx. ok (text "tx")) toy_record none
submit_record_example = submit_record-IsRecorded toy_ledger (λ tx. ok (text "tx")) toy_record none

toy_locates : (locate_record toy_ledger toy_tx toy_record).contains ≡ true
unfolding locate_record includes differing_intent locate_checked list_eq text
toy_locates = rw (toy_describes, toy_passes_unfrozen (text "locate")) refl

locate_record_example : IsLocated toy_ledger toy_tx toy_record
locate_record_example = locate_record-IsLocated toy_ledger toy_tx toy_record toy_locates
