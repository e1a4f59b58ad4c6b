-- ===== src/Generic/Submission.antt =====
-- What is submitted of a saved transaction: src/publisher/generic.ts.
use compact_multi_part_event.Prelude.{
  ◌≡◌, refl, subst, ◌⊎◌, inl, inr, Bool, true, Option, [], ◌∷◌, Text, Bytes, text, Result, ok,
  throw, guard-eq-ok, >>=-eq-ok, ok_injective, throw_ne_ok,
}
use compact_multi_part_event.Bytes.{hex_to_bytes}
use compact_multi_part_event.Finalize.{submit, deserialize_final, same_hash, same_texts, or_some}
use compact_multi_part_event.Finalize.Submission.{same_hash-eq, same_texts-eq}
use compact_multi_part_event.Generic.{
  FinalizedTransactionRecord, IntentCheck, check_generic_saved, submit_saved_transaction,
}
use compact_multi_part_event.Ledger.{Ledger}

module _ (L : Ledger) where
  open L use {Tx, transaction_hash, serialize, identifiers}

  -- The record's bytes are the transaction's, it passes the caller's check, and its hash and
  -- identifiers are the recorded ones.
  pub record IsRestored (saved : FinalizedTransactionRecord) (check : IntentCheck L)
      (require_proofs : Bool) (stage : Text) (tx : Tx) : Type 0 where
    pub bytes : Bytes
    pub decoded : hex_to_bytes saved.transaction_hex ≡ ok bytes
    pub restores : deserialize_final L bytes require_proofs stage ≡ ok tx
    pub checked : check tx stage ≡ ok tt
    pub hash : transaction_hash tx ≡ saved.transaction_hash
    pub names : identifiers tx ≡ saved.identifiers

  check_generic_saved-IsRestored :
      (saved : FinalizedTransactionRecord) (check : IntentCheck L) (require_proofs : Bool)
      (stage : Text) (tx : Tx)
      → check_generic_saved L saved check require_proofs stage ≡ ok tx
      → IsRestored saved check require_proofs stage tx
  unfolding check_generic_saved
  check_generic_saved-IsRestored saved check require_proofs stage tx e =
      let (bytes, e1, e2) = >>=-eq-ok (hex_to_bytes saved.transaction_hex) _ e in
      let (t, e3, e4) = >>=-eq-ok (deserialize_final L bytes require_proofs stage) _ e2 in
      let (_, e5, e6) = >>=-eq-ok (check t stage) _ e4 in
      let (h, e7) = guard-eq-ok (same_hash (transaction_hash t) saved.transaction_hash) _ _ e6 in
      let (i, e8) = guard-eq-ok (same_texts (identifiers t) saved.identifiers) _ _ e7 in
      subst (λ t. IsRestored saved check require_proofs stage t) (ok_injective e8)
        (record {
          bytes = bytes;
          decoded = e1;
          restores = e3;
          checked = e5;
          hash = same_hash-eq _ _ h;
          names = same_texts-eq _ _ i;
        })

  -- No call and no answer, or one call on a restored transaction and its answer.
  abbrev pub IsSent :
      (submit_tx : Tx → Result Text) (saved : FinalizedTransactionRecord) (check : IntentCheck L)
      (require_proofs : Option Bool)
      → Type 0
  IsSent submit_tx saved check require_proofs =
      (((submit_saved_transaction L submit_tx saved check require_proofs).1 ≡ [])
        × ((id : Text)
            → ¬ ((submit_saved_transaction L submit_tx saved check require_proofs).0 ≡ ok id)))
      ⊎ ((tx : Tx) × IsRestored saved check (or_some require_proofs true) (text "before submission")
            tx
          × (submit_saved_transaction L submit_tx saved check require_proofs
              ≡ (submit_tx tx, submit tx ∷ [])))

  -- Submitting a saved transaction other than a package either calls nothing and throws, or calls
  -- the submission once, on a transaction that the record's bytes deserialize to, that passes the
  -- caller's check and that has the recorded hash and identifiers, and answers what the submission
  -- answers.
  pub submit_saved_transaction-IsSent :
      (submit_tx : Tx → Result Text) (saved : FinalizedTransactionRecord) (check : IntentCheck L)
      (require_proofs : Option Bool)
      → IsSent submit_tx saved check require_proofs
  unfolding submit_saved_transaction
  submit_saved_transaction-IsSent submit_tx saved check require_proofs =
      cases
        (check_generic_saved L saved check (or_some require_proofs true) (text "before submission"))
        refl
    where
      cases :
          (checked : Result Tx)
          → check_generic_saved L saved check
              (or_some require_proofs true)
              (text "before submission")
            ≡ checked
          → IsSent submit_tx saved check require_proofs
      cases (ok tx) h = inr (tx, check_generic_saved-IsRestored saved check _ _ tx h, rw h)
      cases (throw x) h = inl (rw h refl, λ id e. throw_ne_ok x id (rw h at e))
