-- ===== src/Verification/Facts/Surveyed.antt =====
-- The facts that the loop over the transactions of src/cli/verify.ts leaves.
use compact_multi_part_event.Prelude.{
  ℕ, ◌≡◌, refl, sym, ap, ◌∙◌, subst, Bool, true, false, Option, none, some, ok_injective, List, [],
  ◌∷◌, Text, Bytes, text_eq, inl, inr, Dictionary, lookup, Option-cases, AreStored, store-AreStored,
  Result, ok, throw, All,
}
use compact_multi_part_event.Ledger.{Ledger}
use compact_multi_part_event.Packages.{ReaderLimits}
use compact_multi_part_event.Process.{lift, process-ok}
use compact_multi_part_event.Transaction.{deserialize_transaction}
use compact_multi_part_event.Verification.Facts.{
  status_check, hash_check, holding_check, missing_fact, undecoded_fact, Survey, Fetched,
  survey_found, survey_hashes, transaction_checks, node_checks, raw_packages, fetch_transaction,
}
use compact_multi_part_event.Verification.Facts.Reached.{
  Reached, fetch_transaction-Stays, survey_found-Stays,
}
use compact_multi_part_event.Verification.Levels.{Check}
use compact_multi_part_event.Verification.Records.{
  BlockRef, SourceTransaction, VerifySource, VerifyRequest, TransactionFacts,
}

holding_check-level : (block : BlockRef) (index : Option ℕ) → (holding_check block index).level ≡ 2
unfolding holding_check
holding_check-level block none = refl
holding_check-level block (some index) = refl

abbrev pub AreOfLevelTwo : List Check → Type 0
AreOfLevelTwo checks = All (λ check. check.level ≡ 2) checks

module _ (L : Ledger) (V : VerifySource) (first : V.State) where
  open L use {Tx}
  open V use {State}

  -- After calls from the first state, the source answered a hash with the transaction.
  abbrev pub IsReported : Text → SourceTransaction → Type 0
  IsReported hash tx = (s : State) × Reached V first s × ((V.transaction hash s).0 ≡ ok (some tx))

  -- The three forms of the facts of a transaction hash.
  pub data IsFact (hash : Text) : TransactionFacts Tx → Type 0 where
    missing : IsFact hash (missing_fact L V)
    undecoded : (tx : SourceTransaction) → IsFact hash (undecoded_fact L V tx)
    found :
        (tx : SourceTransaction) (decoded : Tx) (node : List Check)
        → IsReported hash tx
        → deserialize_transaction L tx.raw ≡ ok decoded
        → AreOfLevelTwo node
        → IsFact hash (record {
          transaction = some tx;
          decoded = some decoded;
          checks = status_check tx.status ∷ hash_check (L.transaction_hash decoded) hash ∷ node;
        })

  abbrev pub AreFacts : Dictionary Text (TransactionFacts Tx) → Type 0
  AreFacts = AreStored IsFact

  abbrev pub AreFetched : Fetched L V → Type 0
  AreFetched =
      AreStored (λ hash found. (tx : SourceTransaction) → found ≡ some tx → IsReported hash tx)

  pub fetch_transaction-IsReported :
      (fetched : Fetched L V) (hash : Text) (s : State)
      (out : Option SourceTransaction × Fetched L V)
      → Reached V first s
      → AreFetched fetched
      → (fetch_transaction L V fetched hash s).0 ≡ ok out
      → ((tx : SourceTransaction) → out.0 ≡ some tx → IsReported hash tx) × AreFetched out.1
  unfolding fetch_transaction
  fetch_transaction-IsReported fetched hash s out reached known h =
      elim (Option-cases (lookup hash fetched)) [
        | inr (held, is) ↦
            let done = ok_injective (rw (fetch_transaction, is) at h) in
            (
              (λ tx e. known hash held is tx (ap (λ x. x.0) done ∙ e)),
              subst (λ x. AreFetched x.1) done known,
            )
        | inl absent ↦
            let (got, answer, last) =
              process-ok (V.transaction hash) _ s (rw (fetch_transaction, absent) at h) in
            let done = ok_injective last in
            let fresh : (tx : SourceTransaction) → got ≡ some tx → IsReported hash tx =
              λ tx e. (s, reached, answer ∙ ap ok e) in
            (
              (λ tx e. fresh tx (ap (λ x. x.0) done ∙ e)),
              subst (λ x. AreFetched x.1) done (store-AreStored _ hash got fetched fresh known),
            )
      ]

  node_checks-AreOfLevelTwo :
      (cross_check : Bool) (tx : SourceTransaction) (s : State) (checks : List Check)
      → (node_checks L V cross_check tx s).0 ≡ ok checks
      → AreOfLevelTwo checks
  unfolding node_checks holding_check
  node_checks-AreOfLevelTwo false tx s checks h = subst AreOfLevelTwo (ok_injective h) tt
  node_checks-AreOfLevelTwo true tx s checks h = elim (Option-cases V.node_holds) [
    | inl absent ↦ subst AreOfLevelTwo (ok_injective (rw (node_checks, absent) at h)) (refl, tt)
    | inr (holds, is) ↦ elim (Option-cases tx.block) [
      | inl unknown ↦
          subst AreOfLevelTwo (ok_injective (rw (node_checks, is, unknown) at h)) (refl, tt)
      | inr (block, at) ↦
          let (index, _, last) =
            process-ok (holds block.hash tx.raw) _ s (rw (node_checks, is, at) at h) in
          subst AreOfLevelTwo (ok_injective last) (holding_check-level block index, tt)
    ]
  ]

  transaction_checks-form :
      (cross_check : Bool) (hash : Text) (tx : SourceTransaction) (decoded : Tx) (s : State)
      (checks : List Check)
      → (transaction_checks L V cross_check hash tx decoded s).0 ≡ ok checks
      → (node : List Check) × AreOfLevelTwo node
        × (checks ≡ status_check tx.status ∷ hash_check (L.transaction_hash decoded) hash ∷ node)
  unfolding transaction_checks
  transaction_checks-form cross_check hash tx decoded s checks h =
      let (node, answer, same) = process-ok (node_checks L V cross_check tx) _ s h in
      (node, node_checks-AreOfLevelTwo cross_check tx s node answer, sym (ok_injective same))

  module _ (request : VerifyRequest) (name : Bytes) (limits : ReaderLimits) where
    survey_found-AreFacts :
        (hash : Text) (before after : Survey L V) (tx : Option SourceTransaction) (s : State)
        → AreFacts before.facts
        → AreFetched before.transactions
        → ((t : SourceTransaction) → tx ≡ some t → IsReported hash t)
        → (survey_found L V request name limits hash before tx s).0 ≡ ok after
        → AreFacts after.facts × AreFetched after.transactions
    unfolding survey_found
    survey_found-AreFacts hash before after none s facts fetched from h =
        subst (λ x. AreFacts x.facts × AreFetched x.transactions) (ok_injective h)
          (store-AreStored IsFact hash _ before.facts missing facts, fetched)
    survey_found-AreFacts hash before after (some tx) s facts fetched from h =
        by_bytes (deserialize_transaction L tx.raw) refl h
      where
        by_bytes :
            (r : Result Tx)
            → deserialize_transaction L tx.raw ≡ r
            → (survey_found L V request name limits hash before (some tx) s).0 ≡ ok after
            → AreFacts after.facts × AreFetched after.transactions
        by_bytes (throw e) same h =
            let done = rw (survey_found, same) at h in
            subst (λ x. AreFacts x.facts × AreFetched x.transactions) (ok_injective done)
              (store-AreStored IsFact hash _ before.facts (undecoded tx) facts, fetched)
        by_bytes (ok decoded) same h =
            let done = rw (survey_found, same) at h in
            let (checks, answer, rest) =
              process-ok (transaction_checks L V request.cross_check_node hash tx decoded) _ s
                done in
            let (node, two, form) =
              transaction_checks-form request.cross_check_node hash tx decoded s checks answer in
            let (read, _, last) =
              process-ok (lift (raw_packages L V request.target name limits hash decoded)) _ _
                rest in
            subst (λ x. AreFacts x.facts × AreFetched x.transactions) (ok_injective last)
              (
                store-AreStored IsFact hash _ before.facts
                    (subst
                      (λ cs.
                        IsFact hash
                          (record { transaction = some tx; decoded = some decoded; checks = cs }))
                      (sym form) (found tx decoded node (from tx refl) same two))
                    facts,
                fetched,
              )

    -- The loop leaves facts only.
    pub survey_hashes-AreFacts :
        (hashes : List Text) (before after : Survey L V) (s : State)
        → Reached V first s
        → AreFacts before.facts
        → AreFetched before.transactions
        → (survey_hashes L V request name limits before hashes s).0 ≡ ok after
        → AreFacts after.facts
    unfolding survey_hashes
    survey_hashes-AreFacts [] before after s reached facts fetched h =
        subst (λ x. AreFacts x.facts) (ok_injective h) facts
    survey_hashes-AreFacts (hash ∷ hashes) before after s reached facts fetched h =
        let (got, h0, h1) = process-ok (fetch_transaction L V before.transactions hash) _ s h in
        let (next, h2, h3) =
          process-ok
            (survey_found L V request name limits hash
              (record { facts = before.facts; entries = before.entries; transactions = got.1 })
              got.0)
            _ _ h1 in
        let (from, kept) =
          fetch_transaction-IsReported before.transactions hash s got reached fetched h0 in
        let reached' = fetch_transaction-Stays V first L before.transactions hash s reached in
        let (good, good') = survey_found-AreFacts hash _ next got.0 _ facts kept from h2 in
        survey_hashes-AreFacts hashes next after _
          (survey_found-Stays V first L request name limits hash _ got.0 _ reached') good good' h3
