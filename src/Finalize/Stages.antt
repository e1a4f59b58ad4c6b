-- ===== src/Finalize/Stages.antt =====
-- The stages of finalizing a transaction of packages: src/publisher/finalize.ts.
use compact_multi_part_event.Prelude.{
  ◌≡◌, sym, ap, ◌∙◌, subst, Bool, true, ◌&&◌, some, [], ◌∷◌, Text, text, leb, range_error, Result,
  ok, guard, >>=-eq-ok, ok_injective,
}
use compact_multi_part_event.Bytes.{bytes_to_hex}
use compact_multi_part_event.Dates.{iso_text}
use compact_multi_part_event.Effects.{lift, call, effect-eq-ok}
use compact_multi_part_event.Finalize.Records.{
  Answer, transaction, other, require_ledger_transaction, FinalizedRecord, or_some,
}
use compact_multi_part_event.Finalize.Checks.{
  CostCheck, block_fullness_check, BuiltTransaction, deserialize_final, package_records, record_of,
  check_answer, save,
}
use compact_multi_part_event.Finalize.{
  FinalizeOptions, prove, balance, Providers, finalize_transaction_packages,
}
use compact_multi_part_event.Guard.{assert_transaction_packages}
use compact_multi_part_event.Guard.Transactions.{IsPackaged, assert_transaction_packages-IsPackaged}
use compact_multi_part_event.Ledger.{Ledger}
use compact_multi_part_event.Packages.{max_safe_integer}

module _ (L : Ledger) where
  open L use {Tx, transaction_hash, serialize, identifiers}

  -- The provider answered with a transaction that holds the packages, with their transcripts
  -- unchanged, and that passes the cost check.
  pub record IsAnswered (cost_check : CostCheck L) (built : BuiltTransaction L) (stage : Text)
      (answer : Result (Answer Tx)) (tx : Tx) : Type 0 where
    pub answered : answer ≡ ok (transaction tx)
    pub packaged : IsPackaged L tx built.packages (some built.frozen_transcripts)
    pub affordable : cost_check tx built.ledger_parameters stage ≡ ok tt

  require_ledger_transaction-eq-ok :
      (answer : Answer Tx) (stage provider : Text) (tx : Tx)
      → require_ledger_transaction answer stage provider ≡ ok tx
      → answer ≡ transaction tx
  unfolding require_ledger_transaction
  require_ledger_transaction-eq-ok (transaction t) stage provider tx e =
      ap transaction (ok_injective e)
  require_ledger_transaction-eq-ok (other shape) stage provider tx e = cc

  check_answer-IsAnswered :
      (cost_check : CostCheck L) (built : BuiltTransaction L) (answer : Answer Tx)
      (stage provider : Text) (tx : Tx)
      → check_answer L cost_check built answer stage provider ≡ ok tx
      → IsAnswered cost_check built stage (ok answer) tx
  unfolding check_answer
  check_answer-IsAnswered cost_check built answer stage provider tx e =
      let (t, e1, e2) = >>=-eq-ok (require_ledger_transaction answer stage provider) _ e in
      let (_, e3, e4) =
        >>=-eq-ok
          (assert_transaction_packages L t built.packages stage (some built.frozen_transcripts)) _
          e2 in
      let (_, e5, e6) = >>=-eq-ok (cost_check t built.ledger_parameters stage) _ e4 in
      let same : t ≡ tx = ok_injective e6 in
      subst (λ t. IsAnswered cost_check built stage (ok answer) t) same
        (record {
          answered = ap ok (require_ledger_transaction-eq-ok answer stage provider t e1);
          packaged =
              assert_transaction_packages-IsPackaged L t built.packages stage
                (some built.frozen_transcripts) e3;
          affordable = e5;
        })

  -- What `save` records, of the bytes read back.
  pub record IsSaved (require_proofs : Bool) (built : BuiltTransaction L) (finalized : Tx)
      (saved : FinalizedRecord) : Type 0 where
    pub restored : Tx
    pub restores :
        deserialize_final L (serialize finalized) require_proofs (text "after serialization")
        ≡ ok restored
    pub packaged : IsPackaged L restored built.packages (some built.frozen_transcripts)
    pub bytes : saved.transaction_hex ≡ bytes_to_hex (serialize finalized)
    pub hash : saved.transaction_hash ≡ transaction_hash restored
    pub names : saved.identifiers ≡ identifiers restored
    pub packages : package_records L restored built.packages ≡ ok saved.packages
    pub expires : iso_text built.ttl ≡ ok saved.ttl

  save-IsSaved :
      (require_proofs : Bool) (built : BuiltTransaction L) (finalized : Tx)
      (saved : FinalizedRecord)
      → save L require_proofs built finalized ≡ ok saved
      → IsSaved require_proofs built finalized saved
  unfolding save record_of
  save-IsSaved require_proofs built finalized saved e =
      let (tx, e1, e2) =
        >>=-eq-ok
          (deserialize_final L (serialize finalized) require_proofs (text "after serialization")) _
          e in
      let (_, e3, e4) =
        >>=-eq-ok
          (assert_transaction_packages L tx built.packages (text "after serialization")
            (some built.frozen_transcripts))
          _ e2 in
      let (packages, e5, e6) = >>=-eq-ok (package_records L tx built.packages) _ e4 in
      let (ttl, e7, e8) = >>=-eq-ok (iso_text built.ttl) _ e6 in
      let same = ok_injective e8 in
      record {
        restored = tx;
        restores = e1;
        packaged =
            assert_transaction_packages-IsPackaged L tx built.packages (text "after serialization")
              (some built.frozen_transcripts) e3;
        bytes = ap (λ r. r.transaction_hex) (sym same);
        hash = ap (λ r. r.transaction_hash) (sym same);
        names = ap (λ r. r.identifiers) (sym same);
        packages = e5 ∙ ap (λ r. ok r.packages) same;
        expires = e7 ∙ ap (λ r. ok r.ttl) same;
      }

  pub record IsFinalized (providers : Providers L) (built : BuiltTransaction L)
      (options : FinalizeOptions L) (saved : FinalizedRecord) : Type 0 where
    pub started : IsPackaged L built.built built.packages (some built.frozen_transcripts)
    pub proven : Tx
    pub proves :
        IsAnswered
          (or_some options.cost_check (block_fullness_check L L.whole))
          built
          (text "after proving")
          (providers.prove_tx built.built options.proof_timeout_ms)
          proven
    pub finalized : Tx
    pub balances :
        IsAnswered
          (or_some options.cost_check (block_fullness_check L L.whole))
          built
          (text "after balancing")
          (providers.balance_tx proven built.ttl)
          finalized
    pub saves : IsSaved (or_some options.require_proofs true) built finalized saved
    pub calls :
        (finalize_transaction_packages L providers built options).1
        ≡ prove built.built options.proof_timeout_ms ∷ balance proven built.ttl ∷ []

  -- If a transaction is finalized, then the prover and the balancer were each called once, in that
  -- order and the balancer on the prover's answer; before and after each call and after
  -- serialization the transaction holds every package with its transcripts as frozen; both answers
  -- pass the cost check; and the record holds the hex of the balancer's answer as serialized, the
  -- hash, the identifiers and the intent hashes of the transaction that these bytes deserialize to,
  -- and the text of the built TTL.
  pub finalize_transaction_packages-IsFinalized :
      (providers : Providers L) (built : BuiltTransaction L) (options : FinalizeOptions L)
      (saved : FinalizedRecord)
      → (finalize_transaction_packages L providers built options).0 ≡ ok saved
      → IsFinalized providers built options saved
  unfolding finalize_transaction_packages
  finalize_transaction_packages-IsFinalized providers built options saved e =
      let cost_check = or_some options.cost_check (block_fullness_check L L.whole) in
      let (_, r0, e0, c0) =
        effect-eq-ok
          (lift (
            guard (leb 1 options.proof_timeout_ms && leb options.proof_timeout_ms max_safe_integer)
              (range_error (text "proofTimeoutMs must be a positive safe integer"))))
          _ e in
      let (_, r1, e1, c1) =
        effect-eq-ok
          (lift (
            assert_transaction_packages L built.built built.packages (text "before proving")
              (some built.frozen_transcripts)))
          _ e0 in
      let (a, r2, e2, c2) =
        effect-eq-ok
          (call (prove built.built options.proof_timeout_ms)
            (providers.prove_tx built.built options.proof_timeout_ms))
          _ e1 in
      let (proven, r3, e3, c3) =
        effect-eq-ok
          (lift (check_answer L cost_check built a (text "after proving") (text "prover"))) _ e2 in
      let (b, r4, e4, c4) =
        effect-eq-ok (call (balance proven built.ttl) (providers.balance_tx proven built.ttl)) _
          e3 in
      let (finalized, r5, e5, c5) =
        effect-eq-ok
          (lift (check_answer L cost_check built b (text "after balancing") (text "balancer"))) _
          e4 in
      record {
        started =
            assert_transaction_packages-IsPackaged L built.built built.packages
              (text "before proving") (some built.frozen_transcripts) r1;
        proven = proven;
        proves =
            subst (λ r. IsAnswered cost_check built (text "after proving") r proven) (sym r2)
              (check_answer-IsAnswered cost_check built a (text "after proving") (text "prover")
                proven r3);
        finalized = finalized;
        balances =
            subst (λ r. IsAnswered cost_check built (text "after balancing") r finalized) (sym r4)
              (check_answer-IsAnswered cost_check built b (text "after balancing") (text "balancer")
                finalized r5);
        saves = save-IsSaved _ built finalized saved e5;
        calls =
            c0
            ∙ c1
            ∙ c2
            ∙ ap (λ cs. prove built.built options.proof_timeout_ms ∷ cs)
                (c3 ∙ c4 ∙ ap (λ cs. balance proven built.ttl ∷ cs) c5);
      }
