-- ===== src/Indexer/Waiting.antt =====
-- src/indexer/index.ts: polling for a transaction. The clock and the sleep are parameters, on the
-- state of the client; the `none` of `wait_for_transaction` says that the rounds given ran out,
-- where the source would poll on.
pub mod Deadline
use compact_multi_part_event.Prelude.{
  ℕ, zero, suc, ◌+◌, true, false, Option, none, some, List, [], ◌∷◌, Text, leb, ok,
}
use compact_multi_part_event.Finalize.{or_some}
use compact_multi_part_event.Indexer.Types.{IndexedTransaction, list_or_empty}
use compact_multi_part_event.Indexer.Query.{Call, sleep, Client}
use compact_multi_part_event.Indexer.Operations.{
  client_transactions_by_hash, client_transactions_by_identifier,
}
use compact_multi_part_event.Process.{Process, pure, call, ◌>>=◌, ◌>>◌}

pub record WaitTarget : Type 0 where
  pub identifiers : Option (List Text)
  pub hash : Option Text

pub record WaitOptions : Type 0 where
  pub timeout_ms : Option ℕ
  pub poll_ms : Option ℕ

abbrev pub first_of {ℓ} : {A : Type ℓ} → List A → Option A
first_of [] = none
first_of (x ∷ xs) = some x

module _ (C : Client) where
  open C use {State}

  unfoldable pub find_by_hash : Option Text → Process State Call (Option IndexedTransaction)
  find_by_hash none = pure none
  find_by_hash (some hash) = do found ← client_transactions_by_hash C hash; pure (first_of found)

  -- The loop over the identifiers, then the hash.
  unfoldable pub find_transaction :
      List Text → Option Text → Process State Call (Option IndexedTransaction)
  find_transaction [] hash = find_by_hash hash
  find_transaction (identifier ∷ identifiers) hash = do
    found ← client_transactions_by_identifier C identifier
    elim (first_of found) [ some tx ↦ pure (some tx) | none ↦ find_transaction identifiers hash ]

  module _ (now : State → ℕ) (pause : ℕ → State → State) where
    abbrev pub read_clock : Process State Call ℕ
    read_clock s = (ok (now s), s, [])

    abbrev pub pause_for : ℕ → Process State Call (Unit {0})
    pause_for ms = call (sleep ms) (λ s. (tt, pause ms s))

    unfoldable pub poll :
        (rounds : ℕ)
        → WaitTarget
        → (deadline poll_ms : ℕ) → Process State Call (Option (Option IndexedTransaction))
    poll zero target deadline poll_ms = pure none
    poll (suc rounds) target deadline poll_ms = do
      found ← find_transaction (list_or_empty target.identifiers) target.hash
      elim found [
        | some tx ↦ pure (some (some tx))
        | none ↦ do
          time ← read_clock
          elim (leb deadline time) [
            | true ↦ pure (some none)
            | false ↦ pause_for poll_ms >> poll rounds target deadline poll_ms
          ]
      ]

    unfoldable pub wait_for_transaction :
        ℕ → WaitTarget → WaitOptions → Process State Call (Option (Option IndexedTransaction))
    wait_for_transaction rounds target options = do
      start ← read_clock
      poll rounds target (start + or_some options.timeout_ms 600000) (or_some options.poll_ms 3000)
