-- ===== src/Compose/Runtime.antt =====
-- src/publisher/compose.ts and src/publisher/binding.ts: the values of a circuit's execution, and
-- what the compact runtime and the ledger library give to assemble a transaction. Neither is part
-- of the repository: their functions are fields of the record `Assembly`. Whatever they draw at
-- random comes from a seed that they pass on.
use compact_multi_part_event.Prelude.{ℕ, Bool, Option, List, Text, Bytes, Result}
use compact_multi_part_event.Event.{Name}
use compact_multi_part_event.Finalize.{PinnedBlock}
use compact_multi_part_event.Dates.{Date}
use compact_multi_part_event.Ledger.{Ledger, StateValue}

-- `CallProofData`: the fields that are checked, and the data of the pre-partition call.
pub record Trace (D : Type 0) : Type 0 where
  pub contract_address : Text
  pub circuit_id : Text
  pub has_communication : Bool
  pub shielded_inputs : ℕ
  pub shielded_outputs : ℕ
  pub proof_data : D

pub record EmittedEvent : Type 0 where
  pub address : Text
  pub event_type : Text
  pub content : StateValue

-- `result.context`, as far as it is read.
pub record Execution (D : Type 0) : Type 0 where
  pub traces : List (Trace D)
  pub events : List EmittedEvent

-- The arguments of `createCircuitContext`.
pub record CircuitContext (S P : Type 0) : Type 0 where
  pub entry_point : Text
  pub contract : Text
  pub coin_public_key : Text
  pub state : S
  pub private_state : P
  pub timestamp_seconds : ℕ
  pub block_hash : Text

module _ (L : Ledger) where
  open L use {Tx, Params}

  pub record Assembly : Type 1 where
    -- The rest of a trace's data.
    pub ProofData : Type 0
    pub RuntimeState : Type 0
    pub runtime_state : Bytes → Result RuntimeState
    pub LedgerState : Type 0
    pub ledger_state : Bytes → Result LedgerState
    pub Operation : Type 0
    pub operation : LedgerState → Text → Option Operation
    pub verifier_key : Operation → Bytes
    pub Private : Type 0
    pub Seed : Type 0
    pub PreCall : Type 0
    pub pre_call : Trace ProofData → Operation → Text → Seed → PreCall × Seed
    pub empty_transaction : Text → Seed → Tx × Seed
    -- `addCalls({ tag: "guaranteedOnly" }, …)`.
    pub add_calls : Tx → List PreCall → Params → (ttl : Date) → Seed → Result (Tx × Seed)
    -- `node:crypto`'s SHA-256, in hex.
    pub sha256 : Bytes → Text

  pub record ContractSnapshot : Type 0 where
    -- What the contract state serializes to.
    pub contract_state : Bytes
    pub ledger_parameters : Params

  pub record StateSource : Type 0 where
    pub latest_block : Result PinnedBlock
    pub contract_state_at : Text → Text → Result ContractSnapshot

  module _ (A : Assembly) where
    open A use {ProofData, RuntimeState, Private}

    pub record EmissionBinding : Type 0 where
      pub entry_point : Text
      pub emit_part : CircuitContext RuntimeState Private → Bytes → Result (Execution ProofData)
      -- The fresh private state of the execution of the part at an index.
      pub create_private_state : ℕ → Private

    pub record PackageRequest : Type 0 where
      pub contract : Text
      pub name : Name
      pub emission : EmissionBinding
      pub parts : List Bytes
