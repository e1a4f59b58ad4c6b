-- ===== src/Ledger.antt =====
-- The ledger library `@midnightntwrk/ledger-v9`, as far as src/reader/transaction.ts,
-- src/publisher/guard.ts and src/publisher/finalize.ts read it. It is not part of the
-- repository: its value shapes are the fields that the code reads, and its functions are fields of
-- the record `Ledger`, a parameter of everything that uses them.
use compact_multi_part_event.Prelude.{ℕ, Bool, Option, List, Text, Bytes, Result}

-- One segment of a cell's alignment: `{ tag: "atom", value: { tag: "bytes", length } }`, or another.
pub data AlignmentSegment : Type 0 where
  bytes_atom : ℕ → AlignmentSegment
  other_segment : AlignmentSegment

-- `EncodedStateValue`, with the tag of the values that are neither cells nor arrays.
mutual
  pub data StateValue : Type 0 where
    cell : List AlignmentSegment → List Bytes → StateValue
    array : StateValues → StateValue
    other_value : Text → StateValue

  pub data StateValues : Type 0 where
    nil : StateValues
    cons : StateValue → StateValues → StateValues

-- A transcript's operations: the string `log`, an object with a `push`, or any other.
pub data Op : Type 0 where
  log : Op
  push : (storage : Bool) → StateValue → Op
  other_op : Op

-- An entry point is text or bytes.
pub data EntryPoint : Type 0 where
  of_text : Text → EntryPoint
  of_bytes : Bytes → EntryPoint

pub record ContractCall (T : Type 0) : Type 0 where
  pub address : Text
  pub entry_point : EntryPoint
  pub guaranteed_transcript : Option T
  pub fallible_transcript : Option T

-- `instanceof ContractCall`, or another action (a deployment or a maintenance update).
pub data Action (T : Type 0) : Type 0 where
  contract_call : ContractCall T → Action T
  other_action : Action T

-- Offers and DUST actions are only tested for presence.
pub record Intent (T : Type 0) : Type 0 where
  pub actions : List (Action T)
  pub has_guaranteed_unshielded_offer : Bool
  pub has_fallible_unshielded_offer : Bool
  pub has_dust_actions : Bool

-- A ledger event, as `LedgerState.apply` or `Event.deserialize` gives it.
pub data EventContent : Type 0 where
  contract_log : (address : Text) → (event_type : Text) → StateValue → EventContent
  other_content : EventContent

pub record LedgerEvent : Type 0 where
  pub content : EventContent
  pub transaction_hash : Text
  pub physical_segment : ℕ

-- The type parameters of a transaction, as the markers of `Transaction.deserialize`.
pub data Proofs : Type 0 where
  proof no_proof pre_proof : Proofs

pub data Binding : Type 0 where
  binding no_binding pre_binding : Binding

pub record Ledger : Type 1 where
  pub Transcript : Type 0
  pub program : Transcript → List Op
  -- `isDeepStrictEqual` on transcripts.
  pub same_transcript : Transcript → Transcript → Bool
  pub Tx : Type 0
  -- The map of intents by segment, in its own order; a missing map reads as an empty one.
  pub intents : Tx → List (ℕ × Intent Transcript)
  -- The segments that carry a fallible Zswap offer.
  pub fallible_offers : Tx → List ℕ
  -- `none` where the call throws.
  pub transaction_hash : Tx → Option Text
  -- `Transaction.deserialize`, with the error that it throws.
  pub deserialize : Proofs → Binding → Bytes → Result Tx
  pub serialize : Tx → Bytes
  pub identifiers : Tx → List Text
  pub intent_hash : Intent Transcript → ℕ → Text
  -- `LedgerParameters`, and a transaction's cost in them: each dimension's share of a block.
  pub Params : Type 0
  pub Fraction : Type 0
  pub whole : Fraction
  pub exceeds : Fraction → Fraction → Bool
  pub fraction_text : Fraction → Text
  pub fixed_text : Fraction → Text
  pub normalized_cost : Tx → Params → Result (List (Text × Fraction))
