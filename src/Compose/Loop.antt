-- ===== src/Compose/Loop.antt =====
-- src/publisher/compose.ts: what composing one package does. The queries of the state source and
-- the executions of the emitting circuits are effects.
pub mod Requested
use compact_multi_part_event.Prelude.{
  ℕ, ◌+◌, ◌*◌, Bool, true, false, not, ◌&&◌, Option, none, some, List, [], ◌∷◌, ◌++◌, Text, Bytes,
  text, decimal, nat_eq, leb, length, if◌then◌else◌, text_eq, ℕ_eq, lookup, store, Dictionary,
  Error, range_error, plain_error, package_check, Result, ok, throw, guard,
}
use compact_multi_part_event.Prelude
use compact_multi_part_event.Compose.Config.{
  max_packages, PublisherConfig, ResolvedConfig, resolve_publisher_config, preflight_package,
}
use compact_multi_part_event.Compose.Intents.{
  check_execution, pre_calls, Added, add_guaranteed_intent,
}
use compact_multi_part_event.Dates.{Date}
use compact_multi_part_event.Compose.Runtime.{
  Trace, Execution, CircuitContext, Assembly, ContractSnapshot, StateSource, PackageRequest,
}
use compact_multi_part_event.Effects.{Effect, pure, lift, call, ◌>>=◌, ◌>>◌}
use compact_multi_part_event.Event.{event_value}
use compact_multi_part_event.Finalize.{PinnedBlock, BuiltTransaction}
use compact_multi_part_event.Guard.{ExpectedPackage, assert_transaction_packages}
use compact_multi_part_event.Ledger.{Action, contract_call, other_action, Intent, Ledger}
use compact_multi_part_event.Packages.{max_safe_integer}

-- The label of the request at an index, of `count`.
unfoldable pub request_label : ℕ → ℕ → Text → Text
request_label count index alone =
    if nat_eq count 1 then alone else text "package " ++ decimal (index + 1)

module _ (L : Ledger) (A : Assembly L) where
  open L use {Transcript, Tx, intents, Params}
  open A use {ProofData, RuntimeState, Private, Seed}

  -- The queries of the source, and the executions of emitting circuits.
  pub data Query : Type 0 where
    latest_block : Query
    contract_state_at : (address : Text) → (block_hash : Text) → Query
    emit_part : CircuitContext RuntimeState Private → (part : Bytes) → Query

  -- `requests.map`.
  unfoldable pub preflight :
      ℕ → ℕ → ℕ → List (PackageRequest L A) → Result (List (Bytes × PackageRequest L A))
  preflight max_parts count index [] = ok []
  preflight max_parts count index (request ∷ requests) =
      Prelude.◌>>=◌
        (preflight_package request.contract request.emission.entry_point request.name request.parts
          max_parts (request_label count index (text "package")))
        λ name.
          Prelude.◌>>=◌ (preflight max_parts count (index + 1) requests)
            λ rest. ok ((name, request) ∷ rest)

  -- The loop that reads each contract's state once.
  unfoldable pub read_snapshots :
      StateSource L
      → Text
      → List (PackageRequest L A)
      → Dictionary Text (ContractSnapshot L)
      → Effect Query (Dictionary Text (ContractSnapshot L))
  read_snapshots source block_hash [] snapshots = pure snapshots
  read_snapshots source block_hash (request ∷ requests) snapshots =
      elim (lookup request.contract snapshots) [
        | some _ ↦ read_snapshots source block_hash requests snapshots
        | none ↦ do
          snapshot ←
              call (contract_state_at request.contract block_hash)
                (source.contract_state_at request.contract block_hash)
          read_snapshots source block_hash requests (store request.contract snapshot snapshots)
      ]

  abbrev pub context_of :
      ResolvedConfig
      → PinnedBlock
      → PackageRequest L A
      → RuntimeState
      → ℕ
      → CircuitContext RuntimeState Private
  context_of config block request state index = record {
    entry_point = request.emission.entry_point;
    contract = request.contract;
    coin_public_key = config.coin_public_key;
    state = state;
    private_state = request.emission.create_private_state index;
    timestamp_seconds = block.timestamp_seconds;
    block_hash = block.hash;
  }

  -- The loop over the parts of a request.
  unfoldable pub execute_parts :
      ResolvedConfig
      → PinnedBlock
      → PackageRequest L A
      → Bytes
      → RuntimeState
      → Text
      → ℕ
      → List Bytes
      → Effect Query (List (Trace ProofData))
  execute_parts config block request name state label index [] = pure []
  execute_parts config block request name state label index (part ∷ parts) = do
    let context = context_of config block request state index
    executed ← call (emit_part context part) (request.emission.emit_part context part)
    expected ← lift (event_value name part)
    trace ← lift (
        check_execution executed.traces executed.events expected request.contract
          request.emission.entry_point (label ++ text " " ++ decimal (index + 1)))
    traces ← execute_parts config block request name state label (index + 1) parts
    pure (trace ∷ traces)

  -- What the loop over the requests has built.
  pub record Composed : Type 0 where
    pub built : Tx
    pub packages : List ExpectedPackage
    pub attempts : List ℕ
    pub seed : Seed

  unfoldable pub key_error : Text → Text → Error
  key_error contract entry_point =
      plain_error (
        text "contract "
        ++ contract
        ++ text " has no verifier key for '"
        ++ entry_point
        ++ text "'")

  -- `ledgerState.operation(entryPoint)?.verifierKey`, which must not be empty.
  unfoldable pub verifier_key_for : A.LedgerState → Text → Text → Result Bytes
  verifier_key_for state contract entry_point = elim (A.operation state entry_point) [
    | none ↦ throw (key_error contract entry_point)
    | some found ↦
        if nat_eq (length (A.verifier_key found)) 0
        then throw (key_error contract entry_point)
        else ok (A.verifier_key found)
  ]

  unfoldable pub snapshot_of :
      Dictionary Text (ContractSnapshot L) → Text → Result (ContractSnapshot L)
  snapshot_of snapshots contract = elim (lookup contract snapshots) [
    | none ↦ throw (plain_error (text "missing snapshot"))
    | some snapshot ↦ ok snapshot
  ]

  abbrev pub package_for : ResolvedConfig → PackageRequest L A → Bytes → ℕ → ExpectedPackage
  package_for config request name segment = record {
    network = config.network;
    contract = request.contract;
    entry_point = request.emission.entry_point;
    name = name;
    segment = segment;
    parts = request.parts;
  }

  -- The body of the loop over the requests.
  unfoldable pub compose_package :
      ResolvedConfig
      → PinnedBlock
      → Dictionary Text (ContractSnapshot L)
      → Params
      → Date
      → Text
      → Bytes
      → PackageRequest L A
      → Composed
      → Effect Query Composed
  compose_package config block snapshots params ttl label name request composed = do
    let entry_point = request.emission.entry_point
    snapshot ← lift (snapshot_of snapshots request.contract)
    runtime ← lift (A.runtime_state snapshot.contract_state)
    state ← lift (A.ledger_state snapshot.contract_state)
    key ← lift (verifier_key_for state request.contract entry_point)
    location ← lift (
        config.key_location
          (record { address = request.contract; entry_point = entry_point; verifier_key = key }))
    traces ← execute_parts config block request name runtime label 0 request.parts
    added ← lift (
        add_guaranteed_intent L A composed.built (pre_calls L A state location traces) params ttl
          config.max_assembly_attempts composed.seed)
    pure (record {
      built = added.0.built;
      packages = composed.packages ++ package_for config request name added.0.segment ∷ [];
      attempts = composed.attempts ++ added.0.attempts ∷ [];
      seed = added.1;
    })
