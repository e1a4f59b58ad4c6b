-- ===== src/Verification/Facts/Reached.antt =====
-- The states of the source that the calls of src/cli/verify.ts lead to.
use compact_multi_part_event.Prelude.{
  ℕ, ◌≡◌, refl, Bool, true, false, Option, none, some, List, [], ◌∷◌, Text, Bytes, text_eq, inl,
  inr, lookup, Option-cases, Result, ok, throw,
}
use compact_multi_part_event.Ledger.{Ledger}
use compact_multi_part_event.Packages.{ReaderLimits}
use compact_multi_part_event.Process.{Process, continue, ◌>>=◌, lift}
use compact_multi_part_event.Transaction.{deserialize_transaction}
use compact_multi_part_event.Verification.Facts.{
  Survey, Fetched, fetch_transaction, node_checks, transaction_checks, raw_packages, survey_found,
  survey_hashes,
}
use compact_multi_part_event.Verification.Records.{
  BlockRef, SourceTransaction, VerifySource, VerifyRequest,
}

module _ (V : VerifySource) (first : V.State) where
  open V use {State, Call}

  -- The states that calls of the source lead to, from the first one.
  pub data Reached : State → Type 0 where
    started : Reached first
    after_events :
        {s : State} (contract : Text) (hash : Option Text)
        → Reached s
        → Reached (V.events contract hash s).1
    after_transaction : {s : State} (hash : Text) → Reached s → Reached (V.transaction hash s).1
    after_state :
        {s : State} (contract : Text) (block : Option BlockRef)
        → Reached s
        → Reached (V.contract_state contract block s).1
    after_node :
        {s : State} (holds : Text → Bytes → Process State Call (Option ℕ)) (block : Text)
        (raw : Bytes)
        → V.node_holds ≡ some holds
        → Reached s
        → Reached (holds block raw s).1

  -- The process calls nothing but the source.
  abbrev pub Stays : {A : Type 0} → Process State Call A → Type 0
  Stays m = (s : State) → Reached s → Reached (m s).1

  pub bind-Stays :
      {A B : Type 0} (m : Process State Call A) (f : A → Process State Call B)
      → Stays m
      → ((a : A) → Stays (f a))
      → Stays (m >>= f)
  bind-Stays m f here next s r = by_result (m s) (here s r)
    where
      by_result : (x : Result _ × State × List Call) → Reached x.1 → Reached (continue f x).1
      by_result (ok a, t, calls) q = next a t q
      by_result (throw e, t, calls) q = q

  module _ (L : Ledger) where
    open L use {Tx}

    pub fetch_transaction-Stays :
        (fetched : Fetched L V) (hash : Text) → Stays (fetch_transaction L V fetched hash)
    unfolding fetch_transaction
    fetch_transaction-Stays fetched hash s r = elim (Option-cases (lookup hash fetched)) [
      | inr (held, is) ↦ rw (fetch_transaction, is) r
      | inl absent ↦
          rw (fetch_transaction, absent)
            (bind-Stays (V.transaction hash) _ (λ t q. after_transaction hash q) (λ a t q. q) s r)
    ]

    -- What each call of the node keeps, its checks keep.
    node_checks-keeps :
        (R : State → Type 0) (cross_check : Bool) (tx : SourceTransaction)
        → ((holds : Text → Bytes → Process State Call (Option ℕ)) (block : Text) (s : State)
            → V.node_holds ≡ some holds
            → R s
            → R (holds block tx.raw s).1)
        → (s : State) → R s
        → R (node_checks L V cross_check tx s).1
    unfolding node_checks
    node_checks-keeps R false tx keeps s r = r
    node_checks-keeps R true tx keeps s r = elim (Option-cases V.node_holds) [
      | inl absent ↦ rw (node_checks, absent) r
      | inr (holds, is) ↦ elim (Option-cases tx.block) [
        | inl unknown ↦ rw (node_checks, is, unknown) r
        | inr (block, at) ↦
            rw (node_checks, is, at)
              (by_result _ (holds block.hash tx.raw s) (keeps holds block.hash s is r))
      ]
    ]
      where
        by_result :
            {A B : Type 0} (f : A → B) (x : Result A × State × List Call)
            → R x.1
            → R (continue (λ a t. (ok (f a), t, [])) x).1
        by_result f (ok a, t, calls) q = q
        by_result f (throw e, t, calls) q = q

    node_checks-Stays :
        (cross_check : Bool) (tx : SourceTransaction) → Stays (node_checks L V cross_check tx)
    node_checks-Stays cross_check tx =
        node_checks-keeps Reached cross_check tx
          (λ holds block s is r. after_node holds block tx.raw is r)

    transaction_checks-Stays :
        (cross_check : Bool) (hash : Text) (tx : SourceTransaction) (decoded : Tx)
        → Stays (transaction_checks L V cross_check hash tx decoded)
    unfolding transaction_checks
    transaction_checks-Stays cross_check hash tx decoded =
        bind-Stays (node_checks L V cross_check tx) _ (node_checks-Stays cross_check tx)
          (λ a t q. q)

    module _ (request : VerifyRequest) (name : Bytes) (limits : ReaderLimits) where
      pub survey_found-Stays :
          (hash : Text) (before : Survey L V) (tx : Option SourceTransaction)
          → Stays (survey_found L V request name limits hash before tx)
      unfolding survey_found
      survey_found-Stays hash before none s r = r
      survey_found-Stays hash before (some tx) s r =
          by_bytes (deserialize_transaction L tx.raw) refl
        where
          by_bytes :
              (x : Result Tx)
              → deserialize_transaction L tx.raw ≡ x
              → Reached (survey_found L V request name limits hash before (some tx) s).1
          by_bytes (throw e) same = rw (survey_found, same) r
          by_bytes (ok decoded) same =
              rw (survey_found, same)
                (bind-Stays (transaction_checks L V request.cross_check_node hash tx decoded) _
                  (transaction_checks-Stays request.cross_check_node hash tx decoded)
                  (λ checks.
                    bind-Stays (lift (raw_packages L V request.target name limits hash decoded)) _
                      (λ t q. q) (λ a t q. q))
                  s r)

      pub survey_hashes-Stays :
          (hashes : List Text) (before : Survey L V)
          → Stays (survey_hashes L V request name limits before hashes)
      unfolding survey_hashes
      survey_hashes-Stays [] before = λ s r. r
      survey_hashes-Stays (hash ∷ hashes) before =
          bind-Stays (fetch_transaction L V before.transactions hash) _
            (fetch_transaction-Stays before.transactions hash)
            (λ got.
              bind-Stays
                (survey_found L V request name limits hash
                  (record { facts = before.facts; entries = before.entries; transactions = got.1 })
                  got.0)
                _ (survey_found-Stays hash _ got.0) (λ next. survey_hashes-Stays hashes next))
