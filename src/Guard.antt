-- ===== src/Guard.antt =====
-- src/publisher/guard.ts: the checks of a package's intent at one construction stage.
pub mod Spec
pub mod Calls
pub mod Soundness
pub mod Transactions
use compact_multi_part_event.Prelude.{
  ℕ, zero, suc, ◌+◌, Bool, true, false, not, ◌&&◌, ◌||◌, Option, none, some, List, [], ◌∷◌, ◌++◌,
  Text, Bytes, text, decimal, ltb, leb, nat_eq, if◌then◌else◌, ◌==◌, text_eq, ℕ_eq, lookup, length,
  Error, range_error, plain_error, package_check, Result, ok, throw, guard, ◌>>=◌, ◌>>◌,
}
use compact_multi_part_event.Bytes.{bytes_equal}
use compact_multi_part_event.Event.{name_length, event_value}
use compact_multi_part_event.Parts.{part_length}
use compact_multi_part_event.Ledger.{
  ContractCall, Action, contract_call, other_action, Intent, Ledger,
}
use compact_multi_part_event.Transaction.{
  Decoded, decoded, malformed, misc_event_type_code, entry_point_text, decode_misc_value,
  LoggedEvent, logged_events, is_present,
}

pub record ExpectedPackage : Type 0 where
  pub network : Text
  pub contract : Text
  pub entry_point : Text
  pub name : Bytes
  pub segment : ℕ
  pub parts : List Bytes

-- `call N`.
unfoldable pub label : ℕ → Text
label index = text "call " ++ decimal (index + 1)

abbrev pub require : Bool → Text → Text → Result (Unit {0})
require test stage detail = guard test (package_check stage detail)

-- The value of the only event, in the `try` of the callback.
unfoldable pub only_value : Text → ℕ → List LoggedEvent → Result Bytes
only_value stage index (event ∷ []) = do
  require (nat_eq event.type_code misc_event_type_code) stage
      (label index ++ text " logs a non-Misc event")
  elim (decode_misc_value event.content) [
    | decoded value ↦ ok value
    | malformed message ↦
        throw (package_check stage (label index ++ text " transcript: " ++ message))
  ]
only_value stage index events = throw (
    package_check stage
      (label index ++ text " logs " ++ decimal (length events) ++ text " events, expected 1"))

-- `part !== undefined && part.byteLength === PART_LENGTH && bytesEqual(value, eventValue(…))`; the
-- `RangeError` of `eventValue` passes through.
unfoldable pub emits_part : Bytes → Option Bytes → Bytes → Result Bool
emits_part name none value = ok false
emits_part name (some part) value = elim (nat_eq (length part) part_length) [
  | false ↦ ok false
  | true ↦ do expected ← event_value name part; ok (bytes_equal value expected)
]

abbrev pub head? {ℓ} : {A : Type ℓ} → List A → Option A
head? [] = none
head? (x ∷ xs) = some x

abbrev pub rest_of {ℓ} : {A : Type ℓ} → List A → List A
rest_of [] = []
rest_of (x ∷ xs) = xs

-- `list.includes(segment)`.
abbrev pub has_segment : List ℕ → ℕ → Bool
has_segment [] segment = false
has_segment (s ∷ segments) segment = nat_eq s segment || has_segment segments segment

unfoldable pub actions_detail : ℕ → ℕ → Text
actions_detail found count =
    text "the package intent has " ++ decimal found ++ text " actions, expected " ++ decimal count

-- The loop over the set of segments seen.
unfoldable pub check_segments : Text → List ℕ → List ExpectedPackage → Result (Unit {0})
check_segments stage segments [] = ok tt
check_segments stage segments (pkg ∷ packages) = do
  require (not (has_segment segments pkg.segment)) stage
      (text "packages share segment " ++ decimal pkg.segment ++ text ": one intent per package")
  check_segments stage (pkg.segment ∷ segments) packages

unfoldable pub package_stage : Text → ℕ → ℕ → Text
package_stage stage count index =
    if nat_eq count 1 then stage else stage ++ text " (package " ++ decimal (index + 1) ++ text ")"

module _ (L : Ledger) where
  open L use {Transcript, program, same_transcript, Tx, intents, fallible_offers}

  unfoldable pub logged_value : Text → ℕ → Transcript → Result Bytes
  logged_value stage index transcript = elim (logged_events (program transcript)) [
    | malformed message ↦
        throw (package_check stage (label index ++ text " transcript: " ++ message))
    | decoded events ↦ only_value stage index events
  ]

  -- `frozen !== undefined && (reference === undefined || !isDeepStrictEqual(…))`, negated.
  abbrev pub unchanged : Option (Option Transcript) → Transcript → Bool
  unchanged none transcript = true
  unchanged (some none) transcript = false
  unchanged (some (some reference)) transcript = same_transcript transcript reference

  -- The checks on the guaranteed transcript of a call.
  unfoldable pub check_transcript :
      Text
      → ExpectedPackage
      → ℕ
      → Option Bytes
      → Option (Option Transcript)
      → Transcript
      → Result (Unit {0})
  check_transcript stage expected index part reference transcript = do
    value ← logged_value stage index transcript
    emitted ← emits_part expected.name part value
    require emitted stage
        (label index ++ text " emits bytes other than part " ++ decimal (index + 1))
    require (unchanged reference transcript) stage
        (label index ++ text " guaranteed transcript changed since assembly")

  unfoldable pub check_call :
      Text
      → ExpectedPackage
      → ℕ
      → Option Bytes
      → Option (Option Transcript)
      → ContractCall Transcript
      → Result (Unit {0})
  check_call stage expected index part reference call = do
    require (call.address == expected.contract) stage
        (label index ++ text " targets another contract")
    require (entry_point_text call.entry_point == expected.entry_point) stage
        (label index ++ text " uses another entry point")
    require (not (is_present call.fallible_transcript)) stage
        (label index ++ text " has a fallible transcript")
    elim call.guaranteed_transcript [
      | none ↦ throw (package_check stage (label index ++ text " has no guaranteed transcript"))
      | some transcript ↦ check_transcript stage expected index part reference transcript
    ]

  -- The callback of `intent.actions.forEach`.
  unfoldable pub check_action :
      Text
      → ExpectedPackage
      → ℕ
      → Option Bytes
      → Option (Option Transcript)
      → Action Transcript
      → Result (Unit {0})
  check_action stage expected index part reference other_action =
      throw (package_check stage (label index ++ text " is not a contract call"))
  check_action stage expected index part reference (contract_call call) =
      check_call stage expected index part reference call

  abbrev pub frozen_head : Option (List Transcript) → Option (Option Transcript)
  frozen_head none = none
  frozen_head (some references) = some (head? references)

  abbrev pub frozen_rest : Option (List Transcript) → Option (List Transcript)
  frozen_rest none = none
  frozen_rest (some references) = some (rest_of references)

  -- The loop over the actions, with the parts and the frozen transcripts from the same index on.
  unfoldable pub check_actions :
      Text
      → ExpectedPackage
      → ℕ
      → List Bytes
      → Option (List Transcript)
      → List (Action Transcript)
      → Result (Unit {0})
  check_actions stage expected index parts frozen [] = ok tt
  check_actions stage expected index parts frozen (action ∷ actions) = do
    check_action stage expected index (head? parts) (frozen_head frozen) action
    check_actions stage expected (index + 1) (rest_of parts) (frozen_rest frozen) actions

  -- The checks of an intent that is there.
  unfoldable pub check_intent :
      Text
      → ExpectedPackage
      → Option (List Transcript)
      → List ℕ
      → Intent Transcript
      → Result (Unit {0})
  check_intent stage expected frozen offers intent = do
    require (nat_eq (length intent.actions) (length expected.parts)) stage
        (actions_detail (length intent.actions) (length expected.parts))
    check_actions stage expected 0 expected.parts frozen intent.actions
    require (not (intent.has_guaranteed_unshielded_offer || intent.has_fallible_unshielded_offer))
        stage (text "the package intent carries an unshielded offer")
    require (not intent.has_dust_actions) stage (text "the package intent carries DUST actions")
    require (not (has_segment offers expected.segment)) stage
        (text "the package segment carries a fallible Zswap offer")

  unfoldable pub assert_package_intent :
      Tx → ExpectedPackage → Text → Option (List Transcript) → Result (Unit {0})
  assert_package_intent tx expected stage frozen = do
    require (leb 1 (length expected.parts)) stage (text "a package needs at least one part")
    require (nat_eq (length expected.name) name_length) stage
        (text "the event name is not 32 bytes")
    require (leb 1 expected.segment && leb expected.segment 65535) stage
        (text "package segment " ++ decimal expected.segment ++ text " is not in 1..65535")
    elim (lookup expected.segment (intents tx)) [
      | none ↦
          throw
            (package_check stage (text "no intent at package segment " ++ decimal expected.segment))
      | some intent ↦ check_intent stage expected frozen (fallible_offers tx) intent
    ]

  abbrev pub frozen_for : Option (List (List Transcript)) → Option (List Transcript)
  frozen_for none = none
  frozen_for (some lists) = head? lists

  abbrev pub frozen_after : Option (List (List Transcript)) → Option (List (List Transcript))
  frozen_after none = none
  frozen_after (some lists) = some (rest_of lists)

  -- `expected.forEach`, for `count` packages in all.
  unfoldable pub check_each :
      Tx → Text → ℕ → ℕ → List ExpectedPackage → Option (List (List Transcript)) → Result (Unit {0})
  check_each tx stage count index [] frozen = ok tt
  check_each tx stage count index (pkg ∷ packages) frozen = do
    assert_package_intent tx pkg (package_stage stage count index) (frozen_for frozen)
    check_each tx stage count (index + 1) packages (frozen_after frozen)

  unfoldable pub assert_transaction_packages :
      Tx → List ExpectedPackage → Text → Option (List (List Transcript)) → Result (Unit {0})
  assert_transaction_packages tx expected stage frozen = do
    require (leb 1 (length expected)) stage (text "no package expected")
    check_segments stage [] expected
    check_each tx stage (length expected) 0 expected frozen
