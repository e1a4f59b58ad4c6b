-- ===== src/Transaction/Activity.antt =====
-- src/reader/transaction.ts: every call to one contract in a transaction, and what they log.
use compact_multi_part_event.Prelude.{
  ℕ, ◌+◌, compare, Bool, true, false, Option, none, some, List, [], ◌∷◌, ◌++◌, Text, Bytes, text,
  decimal, nat_eq, if◌then◌else◌, ◌==◌, text_eq, sort,
}
use compact_multi_part_event.Ledger.{
  Op, ContractCall, Action, contract_call, other_action, Intent, Ledger,
}
use compact_multi_part_event.Transaction.Logged.{
  decoded, malformed, misc_event_type_code, entry_point_text, decode_misc_value, LoggedEvent,
  logged_events,
}

pub data Kind : Type 0 where
  guaranteed fallible : Kind

pub record LoggedPart : Type 0 where
  pub segment : ℕ
  pub action_index : ℕ
  pub entry_point : Text
  pub transcript : Kind
  pub value : Bytes

pub record ContractCallSummary : Type 0 where
  pub segment : ℕ
  pub action_index : ℕ
  pub entry_point : Text
  pub guaranteed : Bool
  pub fallible : Bool

pub record ContractActivity : Type 0 where
  pub calls : List ContractCallSummary
  pub parts : List LoggedPart
  pub issues : List Text

-- Where a transcript stands: the variables that `read` closes over.
pub record Place : Type 0 where
  pub segment : ℕ
  pub action_index : ℕ
  pub entry_point : Text
  pub transcript : Kind

unfoldable pub kind_text : Kind → Text
kind_text guaranteed = text "guaranteed"
kind_text fallible = text "fallible"

unfoldable pub segment_prefix : ℕ → Text
segment_prefix segment = text "segment " ++ (decimal segment ++ text " ")

-- `segment N call K (entry point) kind transcript: message`.
unfoldable pub transcript_issue : Place → Text → Text
transcript_issue place message =
    segment_prefix place.segment
    ++ (text "call "
        ++ decimal place.action_index
        ++ text " ("
        ++ place.entry_point
        ++ text ") "
        ++ kind_text place.transcript
        ++ text " transcript: "
        ++ message)

-- What `read` pushes: the parts, and the issue if it stopped at an error.
pub record Reading : Type 0 where
  pub parts : List LoggedPart
  pub issues : List Text

abbrev pub no_reading : Reading
no_reading = record { parts = []; issues = [] }

abbrev pub part_of : Place → Bytes → LoggedPart
part_of place value = record {
  segment = place.segment;
  action_index = place.action_index;
  entry_point = place.entry_point;
  transcript = place.transcript;
  value = value;
}

abbrev pub failed : Place → Text → Reading
failed place message = record { parts = []; issues = transcript_issue place message ∷ [] }

-- The loop over the events of a transcript; parts that stand before an error are kept.
unfoldable pub read_logged : Place → List LoggedEvent → Reading
read_logged place [] = no_reading
read_logged place (event ∷ events) =
    let rest = read_logged place events in
    let decoded_event : Reading = elim (decode_misc_value event.content) [
      | malformed message ↦ failed place message
      | decoded value ↦ record rest { parts = part_of place value ∷ rest.parts }
    ] in
    if nat_eq event.type_code misc_event_type_code then decoded_event else rest

unfoldable pub read_program : Place → List Op → Reading
read_program place program = elim (logged_events program) [
  | malformed message ↦ failed place message
  | decoded events ↦ read_logged place events
]

-- What one intent's actions add, by field.
pub record Visit : Type 0 where
  pub calls : List ContractCallSummary
  pub guaranteed_parts : List LoggedPart
  pub fallible_parts : List LoggedPart
  pub issues : List Text

abbrev pub no_visit : Visit
no_visit = record { calls = []; guaranteed_parts = []; fallible_parts = []; issues = [] }

abbrev pub join : Visit → Visit → Visit
join v w = record {
  calls = v.calls ++ w.calls;
  guaranteed_parts = v.guaranteed_parts ++ w.guaranteed_parts;
  fallible_parts = v.fallible_parts ++ w.fallible_parts;
  issues = v.issues ++ w.issues;
}

abbrev pub is_present {ℓ} : {A : Type ℓ} → Option A → Bool
is_present none = false
is_present (some a) = true

module _ (L : Ledger) where
  open L use {Transcript, program, Tx, intents}

  -- Intents in ascending segment order.
  unfoldable pub ordered_intents : Tx → List (ℕ × Intent Transcript)
  ordered_intents tx = sort (λ left right. compare left.0 right.0) (intents tx)

  unfoldable pub read_transcript : Place → Option Transcript → Reading
  read_transcript place none = no_reading
  read_transcript place (some transcript) = read_program place (program transcript)

  abbrev pub place_at : ℕ → ℕ → ContractCall Transcript → Kind → Place
  place_at segment index call kind = record {
    segment = segment;
    action_index = index;
    entry_point = entry_point_text call.entry_point;
    transcript = kind;
  }

  -- A call to the contract.
  unfoldable pub visit_call : ℕ → ℕ → ContractCall Transcript → Visit
  visit_call segment index call =
      let sure =
        read_transcript (place_at segment index call guaranteed) call.guaranteed_transcript in
      let risky = read_transcript (place_at segment index call fallible) call.fallible_transcript in
      record {
        calls =
            record {
              segment = segment;
              action_index = index;
              entry_point = entry_point_text call.entry_point;
              guaranteed = is_present call.guaranteed_transcript;
              fallible = is_present call.fallible_transcript;
            }
            ∷ [];
        guaranteed_parts = sure.parts;
        fallible_parts = risky.parts;
        issues = sure.issues ++ risky.issues;
      }

  unfoldable pub visit_action : Text → ℕ → ℕ → Action Transcript → Visit
  visit_action contract segment index other_action = no_visit
  visit_action contract segment index (contract_call call) =
      if call.address == contract then visit_call segment index call else no_visit

  unfoldable pub visit_actions : Text → ℕ → ℕ → List (Action Transcript) → Visit
  visit_actions contract segment index [] = no_visit
  visit_actions contract segment index (action ∷ actions) =
      join (visit_action contract segment index action)
        (visit_actions contract segment (index + 1) actions)

  -- The loop over the intents; an intent's fallible parts stand behind its guaranteed ones.
  unfoldable pub activity_of : Text → List (ℕ × Intent Transcript) → ContractActivity
  activity_of contract [] = record { calls = []; parts = []; issues = [] }
  activity_of contract ((segment, intent) ∷ rest) =
      let visit = visit_actions contract segment 0 intent.actions in
      let later = activity_of contract rest in
      record {
        calls = visit.calls ++ later.calls;
        parts = (visit.guaranteed_parts ++ visit.fallible_parts) ++ later.parts;
        issues = visit.issues ++ later.issues;
      }

  unfoldable pub contract_activity : Tx → Text → ContractActivity
  contract_activity tx contract = activity_of contract (ordered_intents tx)
