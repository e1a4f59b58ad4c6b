-- ===== src/Finalize/Submission.antt =====
-- What is submitted of a saved record: src/publisher/finalize.ts.
use compact_multi_part_event.Prelude.{
  ℕ, ◌≡◌, refl, ap, ◌∙◌, ◌⊎◌, inl, inr, subst, Bool, true, Option, none, some, List, [], ◌∷◌, Text,
  Bytes, text, lookup, ℕ_eq, Result, ok, throw, guard-eq-ok, >>=-eq-ok, ok_injective, Option-cases,
  ◌==◌, text_eq, throw_ne_ok, arith,
}
use compact_multi_part_event.Bytes.{hex_to_bytes}
use compact_multi_part_event.Finalize.Records.{
  FinalizedRecord, PackageRecord, same_texts, same_hash, expected_from_record, or_some,
}
use compact_multi_part_event.Finalize.Checks.{
  deserialize_final, intent_hash_at, check_intent_hashes, check_saved,
}
use compact_multi_part_event.Finalize.{submit, submit_record}
use compact_multi_part_event.Guard.{ExpectedPackage, assert_transaction_packages}
use compact_multi_part_event.Guard.Transactions.{IsPackaged, assert_transaction_packages-IsPackaged}
use compact_multi_part_event.Ledger.{Intent, Ledger}

pub same_hash-eq : (a b : Option Text) → same_hash a b ≡ true → a ≡ b
unfolding same_hash
same_hash-eq none none e = refl
same_hash-eq none (some t) e = cc
same_hash-eq (some s) none e = cc
same_hash-eq (some s) (some t) e = ap some ((text_eq.beq_iff s t).0 e)

pub same_texts-eq : (a b : List Text) → same_texts a b ≡ true → a ≡ b
unfolding same_texts
same_texts-eq [] [] e = refl
same_texts-eq [] (t ∷ ts) e = cc
same_texts-eq (s ∷ ss) [] e = cc
same_texts-eq (s ∷ ss) (t ∷ ts) e = ground (arith, (text_eq.beq_iff s t).0, same_texts-eq ss ts)

module _ (L : Ledger) where
  open L use {Tx, intents, transaction_hash, identifiers}

  -- The intent of each recorded package is in the transaction, with the recorded hash.
  abbrev pub AreRecorded : Tx → List PackageRecord → Type 0
  AreRecorded tx [] = Unit
  AreRecorded tx (pkg ∷ packages) =
      ((intent : Intent L.Transcript) × (lookup pkg.segment (intents tx) ≡ some intent)
        × (L.intent_hash intent pkg.segment ≡ pkg.intent_hash))
      × AreRecorded tx packages

  -- The transaction is the one that the record describes.
  pub record IsRecorded (saved : FinalizedRecord) (require_proofs : Bool) (stage : Text) (tx : Tx)
      : Type 0 where
    pub bytes : Bytes
    pub decoded : hex_to_bytes saved.transaction_hex ≡ ok bytes
    pub restores : deserialize_final L bytes require_proofs stage ≡ ok tx
    pub expected : List ExpectedPackage
    pub described : expected_from_record saved ≡ ok expected
    pub packaged : IsPackaged L tx expected none
    pub hash : transaction_hash tx ≡ saved.transaction_hash
    pub names : identifiers tx ≡ saved.identifiers
    pub hashes : AreRecorded tx saved.packages

  intent_hash_at-eq-ok :
      (tx : Tx) (segment : ℕ) (stage : Text) (hash : Text)
      → intent_hash_at L tx segment stage ≡ ok hash
      → (intent : Intent L.Transcript) × (lookup segment (intents tx) ≡ some intent)
        × (L.intent_hash intent segment ≡ hash)
  unfolding intent_hash_at
  intent_hash_at-eq-ok tx segment stage hash e = elim (Option-cases (lookup segment (intents tx))) [
    | inl h ↦ absurd (throw_ne_ok _ hash (rw (intent_hash_at, h) at e))
    | inr (intent, h) ↦ (intent, h, ok_injective (rw (intent_hash_at, h) at e))
  ]

  check_intent_hashes-AreRecorded :
      (tx : Tx) (stage : Text) (packages : List PackageRecord)
      → check_intent_hashes L tx stage packages ≡ ok tt
      → AreRecorded tx packages
  unfolding check_intent_hashes
  check_intent_hashes-AreRecorded tx stage [] e = tt
  check_intent_hashes-AreRecorded tx stage (pkg ∷ packages) e =
      let (hash, e1, e2) = >>=-eq-ok (intent_hash_at L tx pkg.segment stage) _ e in
      let (same, e3) = guard-eq-ok (hash == pkg.intent_hash) _ _ e2 in
      let (intent, found, hashed) = intent_hash_at-eq-ok tx pkg.segment stage hash e1 in
      (
        (intent, found, hashed ∙ (text_eq.beq_iff hash pkg.intent_hash).0 same),
        check_intent_hashes-AreRecorded tx stage packages e3,
      )

  -- If the checks of a saved record return a transaction, then the record's hex decodes to bytes
  -- that deserialize to it, it holds every recorded package, and its hash, its identifiers and the
  -- hash of each package's intent are the recorded ones.
  pub check_saved-IsRecorded :
      (saved : FinalizedRecord) (require_proofs : Bool) (stage : Text) (tx : Tx)
      → check_saved L saved require_proofs stage ≡ ok tx
      → IsRecorded saved require_proofs stage tx
  unfolding check_saved
  check_saved-IsRecorded saved require_proofs stage tx e =
      let (bytes, e1, e2) = >>=-eq-ok (hex_to_bytes saved.transaction_hex) _ e in
      let (t, e3, e4) = >>=-eq-ok (deserialize_final L bytes require_proofs stage) _ e2 in
      let (expected, e5, e6) = >>=-eq-ok (expected_from_record saved) _ e4 in
      let (_, e7, e8) = >>=-eq-ok (assert_transaction_packages L t expected stage none) _ e6 in
      let (h, e9) = guard-eq-ok (same_hash (transaction_hash t) saved.transaction_hash) _ _ e8 in
      let (i, e10) = guard-eq-ok (same_texts (identifiers t) saved.identifiers) _ _ e9 in
      let (_, e11, e12) = >>=-eq-ok (check_intent_hashes L t stage saved.packages) _ e10 in
      subst (λ t. IsRecorded saved require_proofs stage t) (ok_injective e12)
        (record {
          bytes = bytes;
          decoded = e1;
          restores = e3;
          expected = expected;
          described = e5;
          packaged = assert_transaction_packages-IsPackaged L t expected stage none e7;
          hash = same_hash-eq _ _ h;
          names = same_texts-eq _ _ i;
          hashes = check_intent_hashes-AreRecorded t stage saved.packages e11;
        })

  -- No call and no answer, or one call on a recorded transaction and its answer.
  abbrev pub IsSubmission :
      (submit_tx : Tx → Result Text) (saved : FinalizedRecord) (require_proofs : Option Bool)
      → Type 0
  IsSubmission submit_tx saved require_proofs =
      (((submit_record L submit_tx saved require_proofs).1 ≡ [])
        × ((id : Text) → ¬ ((submit_record L submit_tx saved require_proofs).0 ≡ ok id)))
      ⊎ ((tx : Tx) × IsRecorded saved (or_some require_proofs true) (text "before submission") tx
          × (submit_record L submit_tx saved require_proofs ≡ (submit_tx tx, submit tx ∷ [])))

  -- Submitting a record either calls nothing and throws, or calls the submission once, on a
  -- transaction that the record describes, and answers what the submission answers.
  pub submit_record-IsRecorded :
      (submit_tx : Tx → Result Text) (saved : FinalizedRecord) (require_proofs : Option Bool)
      → IsSubmission submit_tx saved require_proofs
  unfolding submit_record
  submit_record-IsRecorded submit_tx saved require_proofs =
      cases (check_saved L saved (or_some require_proofs true) (text "before submission")) refl
    where
      cases :
          (checked : Result Tx)
          → check_saved L saved (or_some require_proofs true) (text "before submission") ≡ checked
          → IsSubmission submit_tx saved require_proofs
      cases (ok tx) h = inr (tx, check_saved-IsRecorded saved _ _ tx h, rw h)
      cases (throw x) h = inl (rw h refl, λ id e. throw_ne_ok x id (rw h at e))
