-- ===== src/Generic/Stages.antt =====
-- The stages of finalizing a transaction with the caller's check: src/publisher/generic.ts.
use compact_multi_part_event.Prelude.{
  ◌≡◌, sym, ap, ◌∙◌, subst, Bool, true, [], ◌∷◌, Text, text, Result, ok, >>=-eq-ok, ok_injective,
}
use compact_multi_part_event.Bytes.{bytes_to_hex}
use compact_multi_part_event.Dates.{iso_text}
use compact_multi_part_event.Effects.{lift, call, effect-eq-ok}
use compact_multi_part_event.Finalize.{
  Answer, transaction, other, CostCheck, block_fullness_check, prove, balance, Providers,
  deserialize_final, or_some,
}
use compact_multi_part_event.Generic.{
  FinalizedTransactionRecord, require_transaction, FinalizeTransactionOptions, check_generic,
  save_generic, finalize_transaction,
}
use compact_multi_part_event.Ledger.{Ledger}

module _ (L : Ledger) where
  open L use {Tx, transaction_hash, serialize, identifiers}

  -- The provider answered with a transaction that passes the caller's check and the cost check.
  pub record IsAccepted (cost_check : CostCheck L) (options : FinalizeTransactionOptions L)
      (stage : Text) (answer : Result (Answer Tx)) (tx : Tx) : Type 0 where
    pub answered : answer ≡ ok (transaction tx)
    pub checked : options.check tx stage ≡ ok tt
    pub affordable : cost_check tx options.ledger_parameters stage ≡ ok tt

  require_transaction-eq-ok :
      (answer : Answer Tx) (stage provider : Text) (tx : Tx)
      → require_transaction answer stage provider ≡ ok tx
      → answer ≡ transaction tx
  unfolding require_transaction
  require_transaction-eq-ok (transaction t) stage provider tx e = ap transaction (ok_injective e)
  require_transaction-eq-ok (other shape) stage provider tx e = cc

  check_generic-IsAccepted :
      (cost_check : CostCheck L) (options : FinalizeTransactionOptions L) (answer : Answer Tx)
      (stage provider : Text) (tx : Tx)
      → check_generic L cost_check options answer stage provider ≡ ok tx
      → IsAccepted cost_check options stage (ok answer) tx
  unfolding check_generic
  check_generic-IsAccepted cost_check options answer stage provider tx e =
      let (t, e1, e2) = >>=-eq-ok (require_transaction answer stage provider) _ e in
      let (_, e3, e4) = >>=-eq-ok (options.check t stage) _ e2 in
      let (_, e5, e6) = >>=-eq-ok (cost_check t options.ledger_parameters stage) _ e4 in
      let same : t ≡ tx = ok_injective e6 in
      subst (λ t. IsAccepted cost_check options stage (ok answer) t) same
        (record {
          answered = ap ok (require_transaction-eq-ok answer stage provider t e1);
          checked = e3;
          affordable = e5;
        })

  -- What is recorded, of the bytes read back.
  pub record IsKept (require_proofs : Bool) (options : FinalizeTransactionOptions L)
      (finalized : Tx) (saved : FinalizedTransactionRecord) : Type 0 where
    pub restored : Tx
    pub restores :
        deserialize_final L (serialize finalized) require_proofs (text "after serialization")
        ≡ ok restored
    pub checked : options.check restored (text "after serialization") ≡ ok tt
    pub bytes : saved.transaction_hex ≡ bytes_to_hex (serialize finalized)
    pub hash : saved.transaction_hash ≡ transaction_hash restored
    pub names : saved.identifiers ≡ identifiers restored
    pub expires : iso_text options.ttl ≡ ok saved.ttl

  save_generic-IsKept :
      (require_proofs : Bool) (options : FinalizeTransactionOptions L) (finalized : Tx)
      (saved : FinalizedTransactionRecord)
      → save_generic L require_proofs options finalized ≡ ok saved
      → IsKept require_proofs options finalized saved
  unfolding save_generic
  save_generic-IsKept require_proofs options finalized saved e =
      let (tx, e1, e2) =
        >>=-eq-ok
          (deserialize_final L (serialize finalized) require_proofs (text "after serialization")) _
          e in
      let (_, e3, e4) = >>=-eq-ok (options.check tx (text "after serialization")) _ e2 in
      let (ttl, e5, e6) = >>=-eq-ok (iso_text options.ttl) _ e4 in
      let same = ok_injective e6 in
      record {
        restored = tx;
        restores = e1;
        checked = e3;
        bytes = ap (λ r. r.transaction_hex) (sym same);
        hash = ap (λ r. r.transaction_hash) (sym same);
        names = ap (λ r. r.identifiers) (sym same);
        expires = e5 ∙ ap (λ r. ok r.ttl) same;
      }

  pub record IsCompleted (providers : Providers L) (unproven : Tx)
      (options : FinalizeTransactionOptions L) (saved : FinalizedTransactionRecord) : Type 0 where
    pub started : options.check unproven (text "before proving") ≡ ok tt
    pub proven : Tx
    pub proves :
        IsAccepted
          (or_some options.cost_check (block_fullness_check L L.whole))
          options
          (text "after proving")
          (providers.prove_tx unproven options.proof_timeout_ms)
          proven
    pub finalized : Tx
    pub balances :
        IsAccepted
          (or_some options.cost_check (block_fullness_check L L.whole))
          options
          (text "after balancing")
          (providers.balance_tx proven options.ttl)
          finalized
    pub keeps : IsKept (or_some options.require_proofs true) options finalized saved
    pub calls :
        (finalize_transaction L providers unproven options).1
        ≡ prove unproven options.proof_timeout_ms ∷ balance proven options.ttl ∷ []

  -- If a transaction other than a package is finalized, then the prover and the balancer were each
  -- called once, in that order and the balancer on the prover's answer; the caller's check passed
  -- before proving and, with the cost check, on both answers, and again on the bytes read back; and
  -- the record holds the hex of the balancer's answer as serialized, the hash and the identifiers
  -- of the transaction that these bytes deserialize to, and the text of the TTL.
  pub finalize_transaction-IsCompleted :
      (providers : Providers L) (unproven : Tx) (options : FinalizeTransactionOptions L)
      (saved : FinalizedTransactionRecord)
      → (finalize_transaction L providers unproven options).0 ≡ ok saved
      → IsCompleted providers unproven options saved
  unfolding finalize_transaction
  finalize_transaction-IsCompleted providers unproven options saved e =
      let cost_check = or_some options.cost_check (block_fullness_check L L.whole) in
      let (_, r1, e1, c1) =
        effect-eq-ok (lift (options.check unproven (text "before proving"))) _ e in
      let (a, r2, e2, c2) =
        effect-eq-ok
          (call (prove unproven options.proof_timeout_ms)
            (providers.prove_tx unproven options.proof_timeout_ms))
          _ e1 in
      let (proven, r3, e3, c3) =
        effect-eq-ok
          (lift (check_generic L cost_check options a (text "after proving") (text "prover"))) _
          e2 in
      let (b, r4, e4, c4) =
        effect-eq-ok (call (balance proven options.ttl) (providers.balance_tx proven options.ttl)) _
          e3 in
      let (finalized, r5, e5, c5) =
        effect-eq-ok
          (lift (check_generic L cost_check options b (text "after balancing") (text "balancer"))) _
          e4 in
      record {
        started = r1;
        proven = proven;
        proves =
            subst (λ r. IsAccepted cost_check options (text "after proving") r proven) (sym r2)
              (check_generic-IsAccepted cost_check options a (text "after proving") (text "prover")
                proven r3);
        finalized = finalized;
        balances =
            subst (λ r. IsAccepted cost_check options (text "after balancing") r finalized) (sym r4)
              (check_generic-IsAccepted cost_check options b (text "after balancing")
                (text "balancer") finalized r5);
        keeps = save_generic-IsKept _ options finalized saved e5;
        calls =
            c1
            ∙ c2
            ∙ ap (λ cs. prove unproven options.proof_timeout_ms ∷ cs)
                (c3 ∙ c4 ∙ ap (λ cs. balance proven options.ttl ∷ cs) c5);
      }
