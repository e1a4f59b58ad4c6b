-- ===== src/Compose/Intents.antt =====
-- src/publisher/compose.ts: one executed circuit call, its pre-partition call, and the intent that
-- holds the calls of a package.
pub mod Fresh
use compact_multi_part_event.Prelude.{
  ℕ, zero, suc, ◌+◌, ◌-◌, Bool, true, false, not, ◌&&◌, ◌||◌, Option, none, some, List, [], ◌∷◌,
  ◌++◌, map, Text, Bytes, text, decimal, nat_eq, if◌then◌else◌, ◌==◌, text_eq, length, select,
  Error, plain_error, package_check, Result, ok, throw, guard, ◌>>=◌, ◌>>◌,
}
use compact_multi_part_event.Bytes.{bytes_equal}
use compact_multi_part_event.Dates.{Date}
use compact_multi_part_event.Compose.Runtime.{Trace, EmittedEvent, Execution, Assembly}
use compact_multi_part_event.Guard.{has_segment}
use compact_multi_part_event.Ledger.{Intent, Ledger, StateValue}
use compact_multi_part_event.Transaction.{decoded, malformed, decode_misc_value}

-- `fail(detail)`.
abbrev pub execution_error : Text → Text → Error
execution_error label detail = package_check (text "execution") (label ++ text ": " ++ detail)

-- The value of the event, in its `try`.
unfoldable pub event_bytes : Text → StateValue → Result Bytes
event_bytes label content = elim (decode_misc_value content) [
  | decoded value ↦ ok value
  | malformed message ↦ throw (execution_error label (text "event value: " ++ message))
]

-- The checks on the events: one `Misc` event of the contract with the expected bytes.
unfoldable pub check_events : Text → Text → Bytes → List EmittedEvent → Result (Unit {0})
check_events contract label expected (event ∷ []) = do
  guard (event.address == contract && event.event_type == text "misc")
      (execution_error label (text "did not emit one Misc event from the contract"))
  value ← event_bytes label event.content
  guard (bytes_equal value expected)
      (execution_error label (text "emitted bytes differ from the part (name or payload)"))
check_events contract label expected events = throw (
    execution_error label
      (text "emitted " ++ decimal (length events) ++ text " events, expected 1"))

unfoldable pub check_execution :
    {D : Type 0}
    → List (Trace D)
    → List EmittedEvent
    → Bytes
    → Text
    → Text
    → Text
    → Result (Trace D)
check_execution (trace ∷ []) events expected contract entry_point label = do
  guard (trace.contract_address == contract && trace.circuit_id == entry_point)
      (execution_error label (text "trace targets another contract or circuit"))
  guard (not trace.has_communication)
      (execution_error label (text "the emission made a cross-contract call"))
  guard (nat_eq trace.shielded_inputs 0 && nat_eq trace.shielded_outputs 0)
      (execution_error label (text "the emission touched shielded coins"))
  check_events contract label expected events
  ok trace
check_execution traces events expected contract entry_point label = throw (
    execution_error label
      (text "produced " ++ decimal (length traces) ++ text " call traces, expected 1"))

-- `added.length === 1 && segment !== undefined && segment !== 0`, with the segment.
unfoldable pub only_physical : List ℕ → Option ℕ
only_physical [] = none
only_physical (segment ∷ []) = if nat_eq segment 0 then none else some segment
only_physical (segment ∷ other ∷ more) = none

-- The segment that the calls went to, unless it is segment 0 or held an intent before.
unfoldable pub fresh_segment : List ℕ → List ℕ → Option ℕ
fresh_segment before after =
    only_physical (select (λ segment. not (has_segment before segment)) after)

module _ (L : Ledger) (A : Assembly L) where
  open L use {Transcript, Tx, intents, Params}
  open A use {ProofData, LedgerState, operation, Seed, PreCall, pre_call, add_calls}

  unfoldable pub pre_partition_call_for :
      Trace ProofData → LedgerState → Text → Seed → Result (PreCall × Seed)
  pre_partition_call_for trace state location seed = elim (operation state trace.circuit_id) [
    | none ↦ throw (plain_error (text "no operation '" ++ trace.circuit_id ++ text "'"))
    | some found ↦ ok (pre_call trace found location seed)
  ]

  -- `traces.map(…)`, the calls of one attempt.
  unfoldable pub pre_calls :
      LedgerState → Text → List (Trace ProofData) → Seed → Result (List PreCall × Seed)
  pre_calls state location [] seed = ok ([], seed)
  pre_calls state location (trace ∷ traces) seed = do
    first ← pre_partition_call_for trace state location seed
    rest ← pre_calls state location traces first.1
    ok (first.0 ∷ rest.0, rest.1)

  -- The keys of `tx.intents`.
  abbrev pub segments : Tx → List ℕ
  segments tx = map (λ entry. entry.0) (intents tx)

  pub record Added : Type 0 where
    pub built : Tx
    pub segment : ℕ
    pub attempts : ℕ

  -- The loop, at an attempt of `most`, with the attempts that are left.
  unfoldable pub add_attempts :
      Tx
      → (Seed → Result (List PreCall × Seed))
      → Params
      → Date
      → ℕ
      → ℕ
      → ℕ
      → Seed
      → Result (Added × Seed)
  add_attempts tx calls params ttl most attempt zero seed = throw (
      plain_error (
        text "assembly drew segment 0 or a taken segment in all "
        ++ decimal most
        ++ text " attempts"))
  add_attempts tx calls params ttl most attempt (suc left) seed = do
    drawn ← calls seed
    next ← add_calls tx drawn.0 params ttl drawn.1
    elim (fresh_segment (segments tx) (segments next.0)) [
      | none ↦ add_attempts tx calls params ttl most (attempt + 1) left next.1
      | some segment ↦ ok (record { built = next.0; segment = segment; attempts = attempt }, next.1)
    ]

  unfoldable pub add_guaranteed_intent :
      Tx → (Seed → Result (List PreCall × Seed)) → Params → Date → ℕ → Seed → Result (Added × Seed)
  add_guaranteed_intent tx calls params ttl most seed =
      add_attempts tx calls params ttl most 1 most seed
