-- ===== src/Indexer/Waiting/Deadline.antt =====
-- The rounds of `waitForTransaction` of src/indexer/index.ts, and its deadline.
use compact_multi_part_event.Prelude.{
  ℕ, zero, suc, ◌+◌, ◌*◌, ◌≤◌, ◌<◌, ◌≡◌, ◌≢◌, refl, Bool, true, false, Bool-cases, Option, none,
  some, Option-cases, inl, inr, List, [], ◌∷◌, Text, text, leb, Error, Result, ok, throw, arith,
}
use compact_multi_part_event.Finalize.{or_some}
use compact_multi_part_event.Indexer.Operations.{
  client_transactions_by_hash, client_transactions_by_identifier,
}
use compact_multi_part_event.Indexer.Query.{
  Query, DataOf, Outcome, again, ended, outcome, transactions_by_hash, transactions_by_identifier,
  Call, Client, query_attempts, query,
}
use compact_multi_part_event.Indexer.Types.{normalize_hex, IndexedTransaction, list_or_empty}
use compact_multi_part_event.Indexer.Waiting.{
  WaitTarget, WaitOptions, first_of, find_by_hash, find_transaction, pause_for, poll,
  wait_for_transaction,
}
use compact_multi_part_event.Process.{Process, pure, lift, continue, ◌>>=◌, ◌>>◌, process-ok}

module _ (C : Client) (now : C.State → ℕ) where
  open C use {State, fetch, max_attempts}

  -- The clock does not go back.
  abbrev Keeps : {A : Type 0} → Process State Call A → Type 0
  Keeps m = (s : State) → now s ≤ now (m s).1

  bind-Keeps :
      {A B : Type 0} (m : Process State Call A) (f : A → Process State Call B)
      → Keeps m
      → ((a : A) → Keeps (f a))
      → Keeps (m >>= f)
  bind-Keeps m f first next s = by_result (m s) (first s)
    where
      by_result :
          (x : Result _ × State × List Call) → now s ≤ now x.1 → now s ≤ now (continue f x).1
      by_result (ok a, t, calls) h = omega (arith, h, next a t)
      by_result (throw e, t, calls) h = h

  module _ (forward : (q : Query) (s : State) → now s ≤ now (fetch q s).1) where
    query_attempts-Keeps :
        (q : Query) (attempt left : ℕ) (last : Option Error)
        → Keeps (query_attempts C q attempt left last)
    unfolding query_attempts
    query_attempts-Keeps q attempt zero last s = omega arith
    query_attempts-Keeps q attempt (suc left) last s =
        by_outcome (outcome (fetch q s).0) refl
          (λ e. query_attempts-Keeps q (attempt + 1) left (some e) (fetch q s).1)
      where
        by_outcome :
            (o : Outcome (DataOf q))
            → outcome (fetch q s).0 ≡ o
            → ((e : Error)
                → now (fetch q s).1
                  ≤ now (query_attempts C q (attempt + 1) left (some e) (fetch q s).1).1)
            → now s ≤ now (query_attempts C q attempt (suc left) last s).1
        by_outcome (ended result) h rest = rw (query_attempts, h) (forward q s)
        by_outcome (again e) h rest = rw (query_attempts, h) (omega (arith, forward q s, rest e))

    query-Keeps : (q : Query) → Keeps (query C q)
    unfolding query
    query-Keeps q = query_attempts-Keeps q 1 max_attempts none

    by_hash-Keeps : (hash : Text) → Keeps (client_transactions_by_hash C hash)
    unfolding client_transactions_by_hash
    by_hash-Keeps hash =
        bind-Keeps (lift (normalize_hex hash (text "transaction hash"))) _ (λ t. omega arith)
          (λ hex.
            bind-Keeps (query C (transactions_by_hash hex)) _ (query-Keeps _)
              (λ txs t. omega arith))

    by_identifier-Keeps :
        (identifier : Text) → Keeps (client_transactions_by_identifier C identifier)
    unfolding client_transactions_by_identifier
    by_identifier-Keeps identifier =
        bind-Keeps (lift (normalize_hex identifier (text "transaction identifier"))) _
          (λ t. omega arith)
          (λ hex.
            bind-Keeps (query C (transactions_by_identifier hex)) _ (query-Keeps _)
              (λ txs t. omega arith))

    found_or-Keeps :
        {A : Type 0} (o : Option A) (m : Process State Call (Option A))
        → Keeps m
        → Keeps (elim o [ some a ↦ pure (some a) | none ↦ m ])
    found_or-Keeps none m h s = h s
    found_or-Keeps (some a) m h s = omega arith

    pub find_transaction-Keeps :
        (identifiers : List Text) (hash : Option Text) → Keeps (find_transaction C identifiers hash)
    unfolding find_transaction find_by_hash
    find_transaction-Keeps [] none = λ t. omega arith
    find_transaction-Keeps [] (some hash) =
        bind-Keeps (client_transactions_by_hash C hash) _ (by_hash-Keeps hash)
          (λ found t. omega arith)
    find_transaction-Keeps (identifier ∷ identifiers) hash =
        bind-Keeps (client_transactions_by_identifier C identifier) _
          (by_identifier-Keeps identifier)
          (λ found.
            found_or-Keeps (first_of found) (find_transaction C identifiers hash)
              (find_transaction-Keeps identifiers hash))

    module _ (pause : ℕ → State → State)
        (passes : (ms : ℕ) (s : State) → now s + ms ≤ now (pause ms s)) where
      -- What a round does once nothing was found, by whether the deadline has passed.
      abbrev after_time :
          ℕ
          → WaitTarget
          → (deadline poll_ms : ℕ) → Bool
          → Process State Call (Option (Option IndexedTransaction))
      after_time rounds target deadline poll_ms true = pure (some none)
      after_time rounds target deadline poll_ms false =
          pause_for C now pause poll_ms >> poll C now pause rounds target deadline poll_ms

      poll-ends :
          (rounds : ℕ) (target : WaitTarget) (deadline poll_ms : ℕ) (s : State)
          → deadline + poll_ms ≤ now s + rounds * poll_ms
          → 1 ≤ rounds
          → (poll C now pause rounds target deadline poll_ms s).0 ≢ ok none
      unfolding poll
      poll-ends zero target deadline poll_ms s enough some_round h = absurd (omega arith)
      poll-ends (suc rounds) target deadline poll_ms s enough some_round h =
          let (found, _, h1) =
            process-ok (find_transaction C (list_or_empty target.identifiers) target.hash) _ s h in
          let later = find_transaction-Keeps (list_or_empty target.identifiers) target.hash s in
          elim (Option-cases found) [
            | inr (tx, is) ↦ let clash = rw is at h1 in cc
            | inl absent ↦
                by_time (find_transaction C (list_or_empty target.identifiers) target.hash s).1
                  later (rw absent at h1) (poll-ends rounds target deadline poll_ms)
          ]
        where
          rounds_left :
              (rounds : ℕ)
              → deadline + poll_ms ≤ now s + suc rounds * poll_ms
              → now s < deadline
              → 1 ≤ rounds
          rounds_left zero enough before = absurd (omega arith)
          rounds_left (suc rounds) enough before = omega arith

          by_time :
              (t : State)
              → now s ≤ now t
              → (after_time rounds target deadline poll_ms (leb deadline (now t)) t).0 ≡ ok none
              → ((u : State)
                  → deadline + poll_ms ≤ now u + rounds * poll_ms
                  → 1 ≤ rounds
                  → (poll C now pause rounds target deadline poll_ms u).0 ≢ ok none)
              → ⊥
          by_time t later h2 rest = elim (Bool-cases (leb deadline (now t))) [
            | inl reached ↦ let clash = rw reached at h2 in cc
            | inr early ↦
                let before : now t < deadline = ground (arith, early) in
                rest (pause poll_ms t) (omega (arith, passes poll_ms t, later, enough))
                  (rounds_left rounds enough (omega (arith, before, later))) (rw early at h2)
          ]

      -- If no request turns the clock back and each pause lets at least its time pass, then rounds
      -- for the time-out and one poll interval more, and at least one, are enough: polling finds a
      -- transaction, times out or throws, and does not run out of rounds.
      pub wait_for_transaction-ends :
          (rounds : ℕ) (target : WaitTarget) (options : WaitOptions) (s : State)
          → or_some options.timeout_ms 600000 + or_some options.poll_ms 3000
            ≤ rounds * or_some options.poll_ms 3000
          → 1 ≤ rounds
          → (wait_for_transaction C now pause rounds target options s).0 ≢ ok none
      unfolding wait_for_transaction
      wait_for_transaction-ends rounds target options s enough some_round =
          poll-ends rounds target (now s + or_some options.timeout_ms 600000)
            (or_some options.poll_ms 3000) s (omega (arith, enough)) some_round
