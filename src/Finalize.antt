-- ===== src/Finalize.antt =====
-- src/publisher/finalize.ts: prove, balance, check and submit a built transaction. The calls of the
-- providers are effects.
mod Records
pub mod Stages
pub mod Submission
pub mod Location
mod Checks
unfoldable pub use Records.*
unfoldable pub use Checks.*
use compact_multi_part_event.Prelude.{
  ℕ, true, ◌&&◌, Bool, Option, none, some, Text, text, leb, range_error, Result, guard,
}
use compact_multi_part_event.Effects.{Effect, lift, call, ◌>>=◌, ◌>>◌}
use compact_multi_part_event.Guard.{assert_transaction_packages}
use compact_multi_part_event.Dates.{Date}
use compact_multi_part_event.Ledger.{Ledger}
use compact_multi_part_event.Packages.{max_safe_integer}

module _ (L : Ledger) where
  open L use {
    Transcript, Tx, intents, transaction_hash, deserialize, serialize, identifiers, Params,
    Fraction, whole, exceeds, fraction_text, fixed_text, normalized_cost,
  }

  pub record FinalizeOptions : Type 0 where
    pub proof_timeout_ms : ℕ
    pub cost_check : Option (CostCheck L)
    pub require_proofs : Option Bool

  -- The calls of the providers.
  pub data Call : Type 0 where
    prove : Tx → (timeout : ℕ) → Call
    balance : Tx → (ttl : Date) → Call
    submit : Tx → Call

  pub record Providers : Type 0 where
    pub prove_tx : Tx → ℕ → Result (Answer Tx)
    pub balance_tx : Tx → Date → Result (Answer Tx)

  unfoldable pub finalize_transaction_packages :
      Providers → BuiltTransaction L → FinalizeOptions → Effect Call FinalizedRecord
  finalize_transaction_packages providers built options = do
    lift (
        guard (leb 1 options.proof_timeout_ms && leb options.proof_timeout_ms max_safe_integer)
          (range_error (text "proofTimeoutMs must be a positive safe integer")))
    let cost_check = or_some options.cost_check (block_fullness_check L whole)
    lift (
        assert_transaction_packages L built.built built.packages (text "before proving")
          (some built.frozen_transcripts))
    answer ←
        call (prove built.built options.proof_timeout_ms)
          (providers.prove_tx built.built options.proof_timeout_ms)
    proven ← lift (check_answer L cost_check built answer (text "after proving") (text "prover"))
    answer' ← call (balance proven built.ttl) (providers.balance_tx proven built.ttl)
    finalized ←
        lift (check_answer L cost_check built answer' (text "after balancing") (text "balancer"))
    lift (save L (or_some options.require_proofs true) built finalized)

  unfoldable pub submit_record :
      (submit_tx : Tx → Result Text) → FinalizedRecord → Option Bool → Effect Call Text
  submit_record submit_tx saved require_proofs = do
    snapshot ← lift (check_saved L saved (or_some require_proofs true) (text "before submission"))
    call (submit snapshot) (submit_tx snapshot)
