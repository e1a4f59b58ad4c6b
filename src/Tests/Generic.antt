-- ===== src/Tests/Generic.antt =====
-- Runs of the generic finalization and submission: src/publisher/generic.ts.
use compact_multi_part_event.Prelude.{◌≡◌, refl, none, some, [], ◌∷◌, text, list_eq, ok}
use compact_multi_part_event.Bytes.{bytes_to_hex, hex_digit}
use compact_multi_part_event.Dates.{date_at, date_text, iso_text}
use compact_multi_part_event.Finalize.{check_dimensions, block_fullness_check, deserialize_final}
use compact_multi_part_event.Generic.{
  FinalizedTransactionRecord, FinalizeTransactionOptions, require_transaction, check_generic,
  save_generic, finalize_transaction,
}
use compact_multi_part_event.Generic.Stages.{IsCompleted, finalize_transaction-IsCompleted}
use compact_multi_part_event.Generic.Submission.{IsSent, submit_saved_transaction-IsSent}
use compact_multi_part_event.Tests.Toy.{toy_ledger, toy_tx, toy_providers}

abbrev generic_options : FinalizeTransactionOptions toy_ledger
generic_options = record {
  network = text "net";
  purpose = text "pin";
  proof_timeout_ms = 1000;
  ttl = date_at 1000;
  ledger_parameters = 0;
  block_hash = text "b";
  block_height = 1;
  check = λ tx stage. ok tt;
  cost_check = none;
  require_proofs = none;
}

abbrev generic_record : FinalizedTransactionRecord
generic_record = record {
  network = text "net";
  purpose = text "pin";
  transaction_hex = text "07";
  transaction_hash = some (text "hash");
  identifiers = text "id" ∷ [];
  ttl = date_text 1000;
  block_hash = text "b";
  block_height = 1;
}

generic_finalizes :
    (finalize_transaction toy_ledger toy_providers toy_tx generic_options).0 ≡ ok generic_record
unfolding finalize_transaction check_generic save_generic require_transaction block_fullness_check
    check_dimensions deserialize_final list_eq bytes_to_hex hex_digit text iso_text
generic_finalizes = refl

finalize_transaction_example :
    IsCompleted toy_ledger toy_providers toy_tx generic_options generic_record
finalize_transaction_example =
    finalize_transaction-IsCompleted toy_ledger toy_providers toy_tx generic_options generic_record
      generic_finalizes

submit_saved_transaction_example :
    IsSent toy_ledger (λ tx. ok (text "tx")) generic_record (λ tx stage. ok tt) none
submit_saved_transaction_example =
    submit_saved_transaction-IsSent toy_ledger (λ tx. ok (text "tx")) generic_record
      (λ tx stage. ok tt) none
