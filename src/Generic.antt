-- ===== src/Generic.antt =====
-- src/publisher/generic.ts: transactions other than packages, with the caller's own check at every
-- stage.
pub mod Stages
pub mod Submission
use compact_multi_part_event.Prelude.{
  ℕ, Bool, true, Option, none, some, List, ◌++◌, Text, text, Result, ok, throw, package_check,
  guard,
}
use compact_multi_part_event.Prelude
use compact_multi_part_event.Bytes.{bytes_to_hex, hex_to_bytes}
use compact_multi_part_event.Dates.{Date, iso_text}
use compact_multi_part_event.Effects.{Effect, lift, call, ◌>>=◌, ◌>>◌}
use compact_multi_part_event.Finalize.{
  Answer, transaction, other, PinnedBlock, CostCheck, block_fullness_check, Call, prove, balance,
  submit, Providers, deserialize_final, same_hash, same_texts, or_some,
}
use compact_multi_part_event.Ledger.{Ledger}

pub record FinalizedTransactionRecord : Type 0 where
  pub network : Text
  pub purpose : Text
  pub transaction_hex : Text
  pub transaction_hash : Option Text
  pub identifiers : List Text
  pub ttl : Text
  pub block_hash : Text
  pub block_height : ℕ

-- `requireTransaction`.
unfoldable pub require_transaction : {T : Type 0} → Answer T → Text → Text → Result T
require_transaction (transaction tx) stage provider = ok tx
require_transaction (other shape) stage provider = throw (
    package_check stage
      (text "the " ++ provider ++ text " did not return a ledger-v9 transaction of this process"))

module _ (L : Ledger) where
  open L use {Tx, transaction_hash, serialize, identifiers, Params, whole}

  abbrev pub IntentCheck : Type 0
  IntentCheck = Tx → Text → Result (Unit {0})

  pub record FinalizeTransactionOptions : Type 0 where
    pub network : Text
    pub purpose : Text
    pub proof_timeout_ms : ℕ
    pub ttl : Date
    pub ledger_parameters : Params
    pub block_hash : Text
    pub block_height : ℕ
    pub check : IntentCheck
    pub cost_check : Option (CostCheck L)
    pub require_proofs : Option Bool

  -- The checks of a provider's answer at one stage.
  unfoldable pub check_generic :
      CostCheck L → FinalizeTransactionOptions → Answer Tx → Text → Text → Result Tx
  check_generic cost_check options answer stage provider =
      Prelude.◌>>=◌ (require_transaction answer stage provider) λ tx.
        Prelude.◌>>◌ (options.check tx stage)
          (Prelude.◌>>◌ (cost_check tx options.ledger_parameters stage) (ok tx))

  -- From the finalized transaction to its record.
  unfoldable pub save_generic :
      Bool → FinalizeTransactionOptions → Tx → Result FinalizedTransactionRecord
  save_generic require_proofs options finalized =
      Prelude.◌>>=◌
        (deserialize_final L (serialize finalized) require_proofs (text "after serialization"))
        λ restored. Prelude.◌>>◌ (options.check restored (text "after serialization")) (
          Prelude.◌>>=◌ (iso_text options.ttl) λ ttl. ok (record {
            network = options.network;
            purpose = options.purpose;
            transaction_hex = bytes_to_hex (serialize finalized);
            transaction_hash = transaction_hash restored;
            identifiers = identifiers restored;
            ttl = ttl;
            block_hash = options.block_hash;
            block_height = options.block_height;
          }))

  unfoldable pub finalize_transaction :
      Providers L → Tx → FinalizeTransactionOptions → Effect (Call L) FinalizedTransactionRecord
  finalize_transaction providers unproven options = do
    let cost_check = or_some options.cost_check (block_fullness_check L whole)
    lift (options.check unproven (text "before proving"))
    answer ←
        call (prove unproven options.proof_timeout_ms)
          (providers.prove_tx unproven options.proof_timeout_ms)
    proven ← lift (check_generic cost_check options answer (text "after proving") (text "prover"))
    answer' ← call (balance proven options.ttl) (providers.balance_tx proven options.ttl)
    finalized ←
        lift (check_generic cost_check options answer' (text "after balancing") (text "balancer"))
    lift (save_generic (or_some options.require_proofs true) options finalized)

  -- The checks of the saved bytes: the transaction to submit.
  unfoldable pub check_generic_saved :
      FinalizedTransactionRecord → IntentCheck → Bool → Text → Result Tx
  check_generic_saved saved check require_proofs stage =
      Prelude.◌>>=◌ (hex_to_bytes saved.transaction_hex) λ bytes.
        Prelude.◌>>=◌ (deserialize_final L bytes require_proofs stage) λ snapshot.
          Prelude.◌>>◌ (check snapshot stage) (
            Prelude.◌>>◌
              (guard (same_hash (transaction_hash snapshot) saved.transaction_hash)
                (package_check stage (text "saved bytes do not match the recorded hash")))
              (Prelude.◌>>◌
                (guard (same_texts (identifiers snapshot) saved.identifiers)
                  (package_check stage (text "saved bytes do not match the recorded identifiers")))
                (ok snapshot)))

  unfoldable pub submit_saved_transaction :
      (submit_tx : Tx → Result Text)
      → FinalizedTransactionRecord
      → IntentCheck
      → Option Bool
      → Effect (Call L) Text
  submit_saved_transaction submit_tx saved check require_proofs = do
    snapshot ←
        lift
          (check_generic_saved saved check (or_some require_proofs true) (text "before submission"))
    call (submit snapshot) (submit_tx snapshot)
