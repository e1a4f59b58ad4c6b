-- ===== src/Transaction/Placement.antt =====
-- src/reader/transaction.ts: one package checked against the raw transaction that holds it.
use compact_multi_part_event.Prelude.{
  ℕ, ◌+◌, Bool, true, false, not, ◌&&◌, ◌||◌, none, some, List, [], ◌∷◌, ◌++◌, map, Text, Bytes,
  text, decimal, nat_eq, if◌then◌else◌, ◌==◌, text_eq, ℕ_eq, lookup, length, take, drop, select,
  starts_with, Result, ok, ◌>>=◌,
}
use compact_multi_part_event.Bytes.{bytes_equal}
use compact_multi_part_event.Event.{Name, name_length, event_name}
use compact_multi_part_event.Ledger.{Ledger}
use compact_multi_part_event.Transaction.Activity.{
  Kind, guaranteed, fallible, LoggedPart, ContractCallSummary, ContractActivity, segment_prefix,
  contract_activity,
}

pub record PlacementTarget : Type 0 where
  pub contract : Text
  pub entry_point : Text
  pub name : Name

abbrev pub is_guaranteed : Kind → Bool
is_guaranteed guaranteed = true
is_guaranteed fallible = false

unfoldable pub not_guaranteed_issue : Text → ContractCallSummary → Text
not_guaranteed_issue entry_point call =
    text "call "
    ++ decimal call.action_index
    ++ text " of "
    ++ entry_point
    ++ text " is not guaranteed-only ("
    ++ (if call.fallible then text "fallible transcript" else text "no guaranteed transcript")
    ++ text ")"

-- The loop over the emitting calls.
unfoldable pub emitting_issues : Text → List ContractCallSummary → List Text
emitting_issues entry_point [] = []
emitting_issues entry_point (call ∷ calls) =
    (if call.fallible || not call.guaranteed
      then not_guaranteed_issue entry_point call ∷ []
      else [])
    ++ emitting_issues entry_point calls

unfoldable pub other_circuit_issue : LoggedPart → Text
other_circuit_issue part =
    text "call "
    ++ decimal part.action_index
    ++ text " ("
    ++ part.entry_point
    ++ text ") also logs the name"

-- The loop over the parts that log the name.
unfoldable pub other_circuit_issues : Text → List LoggedPart → List Text
other_circuit_issues entry_point [] = []
other_circuit_issues entry_point (part ∷ parts) =
    (if part.entry_point == entry_point then [] else other_circuit_issue part ∷ [])
    ++ other_circuit_issues entry_point parts

-- The payloads that the emitting circuit's calls log, guaranteed, in order.
unfoldable pub expected_payloads : Text → List LoggedPart → List Bytes
expected_payloads entry_point named =
    map (λ part. drop name_length part.value)
      (select (λ part. part.entry_point == entry_point && is_guaranteed part.transcript) named)

unfoldable pub part_issue : ℕ → Text
part_issue index =
    text "part "
    ++ decimal (index + 1)
    ++ text " differs from what call "
    ++ decimal (index + 1)
    ++ text " logs"

-- `expected.forEach` against the package's parts; a missing part differs.
unfoldable pub part_issues : ℕ → List Bytes → List Bytes → List Text
part_issues index [] parts = []
part_issues index (payload ∷ payloads) [] = part_issue index ∷ part_issues (index + 1) payloads []
part_issues index (payload ∷ payloads) (part ∷ parts) =
    (if bytes_equal payload part then [] else part_issue index ∷ [])
    ++ part_issues (index + 1) payloads parts

unfoldable pub count_issue : Text → ℕ → ℕ → Text
count_issue entry_point logged held =
    text "the intent's "
    ++ entry_point
    ++ text " calls log "
    ++ decimal logged
    ++ text " parts; the package has "
    ++ decimal held

unfoldable pub payload_issues : Text → List Bytes → List Bytes → List Text
payload_issues entry_point expected parts =
    if nat_eq (length expected) (length parts)
    then part_issues 0 expected parts
    else count_issue entry_point (length expected) (length parts) ∷ []

-- The parts of the segment whose value begins with the name.
unfoldable pub named_parts : ContractActivity → Bytes → ℕ → List LoggedPart
named_parts activity name segment =
    select (λ part. nat_eq part.segment segment && bytes_equal (take name_length part.value) name)
      activity.parts

unfoldable pub emitting_calls : ContractActivity → Text → ℕ → List ContractCallSummary
emitting_calls activity entry_point segment =
    select (λ call. call.entry_point == entry_point)
      (select (λ call. nat_eq call.segment segment) activity.calls)

-- The checks of an intent that is there.
unfoldable pub activity_issues : ContractActivity → Text → Bytes → ℕ → List Bytes → List Text
activity_issues activity entry_point name segment parts =
    let named = named_parts activity name segment in
    select (λ issue. starts_with issue (segment_prefix segment)) activity.issues
    ++ emitting_issues entry_point (emitting_calls activity entry_point segment)
    ++ other_circuit_issues entry_point named
    ++ payload_issues entry_point (expected_payloads entry_point named) parts

unfoldable pub check_placement :
    (L : Ledger) → L.Tx → PlacementTarget → ℕ → List Bytes → Result (List Text)
check_placement L tx target segment parts = do
  name ← event_name target.name
  ok (elim (lookup segment (L.intents tx)) [
    | none ↦ (text "no intent at segment " ++ decimal segment) ∷ []
    | some intent ↦
        activity_issues (contract_activity L tx target.contract) target.entry_point name segment
          parts
  ])
