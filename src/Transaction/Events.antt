-- ===== src/Transaction/Events.antt =====
-- src/reader/transaction.ts: reader input from raw transactions and from ledger events.
use compact_multi_part_event.Prelude.{
  ℕ, ◌+◌, Bool, true, false, ◌&&◌, ◌||◌, Option, none, some, List, [], ◌∷◌, ◌++◌, Text, text,
  decimal, if◌then◌else◌, ◌==◌, text_eq, ℕ_eq, Dictionary, lookup, store,
}
use compact_multi_part_event.Ledger.{
  StateValue, EventContent, contract_log, other_content, LedgerEvent, Ledger,
}
use compact_multi_part_event.Packages.{PartEvent}
use compact_multi_part_event.Transaction.Logged.{decoded, malformed, decode_misc_value}
use compact_multi_part_event.Transaction.Activity.{LoggedPart, contract_activity}

pub record TransactionScope : Type 0 where
  pub network : Text
  pub contract : Text
  pub transaction_hash : Text

abbrev pub or_zero : Option ℕ → ℕ
or_zero none = 0
or_zero (some n) = n

-- The callback of `activity.parts.map`, with the map `next` of positions by segment.
unfoldable pub number_parts : TransactionScope → Dictionary ℕ ℕ → List LoggedPart → List PartEvent
number_parts scope next [] = []
number_parts scope next (part ∷ parts) =
    let position = or_zero (lookup part.segment next) in
    record {
      network = scope.network;
      contract = scope.contract;
      transaction_hash = scope.transaction_hash;
      segment = part.segment;
      position = position;
      value = part.value;
    }
    ∷ number_parts scope (store part.segment (position + 1) next) parts

pub record Converted : Type 0 where
  pub events : List PartEvent
  pub issues : List Text

unfoldable pub part_events_from_transaction : (L : Ledger) → L.Tx → TransactionScope → Converted
part_events_from_transaction L tx scope =
    let activity = contract_activity L tx scope.contract in
    record { events = number_parts scope [] activity.parts; issues = activity.issues }

pub record LedgerEventOptions : Type 0 where
  pub network : Text
  pub contracts : Option (List Text)
  pub position_of : Option (LedgerEvent → ℕ → ℕ)

-- `list.includes(s)`.
unfoldable pub includes : List Text → Text → Bool
includes [] s = false
includes (t ∷ ts) s = t == s || includes ts s

abbrev pub admits : Option (List Text) → Text → Bool
admits none address = true
admits (some contracts) address = includes contracts address

abbrev pub position_at : Option (LedgerEvent → ℕ → ℕ) → LedgerEvent → ℕ → ℕ
position_at none event index = index
position_at (some f) event index = f event index

abbrev pub nothing : Converted
nothing = record { events = []; issues = [] }

-- A `contractLog` event of an admitted contract and of type `misc`.
unfoldable pub convert_log : LedgerEventOptions → LedgerEvent → ℕ → Text → StateValue → Converted
convert_log options event position address value = elim (decode_misc_value value) [
  | malformed message ↦ record {
    events = [];
    issues = (text "event at position " ++ decimal position ++ text ": " ++ message) ∷ [];
  }
  | decoded bytes ↦ record {
    events =
        record {
          network = options.network;
          contract = address;
          transaction_hash = event.transaction_hash;
          segment = event.physical_segment;
          position = position;
          value = bytes;
        }
        ∷ [];
    issues = [];
  }
]

unfoldable pub convert_content : LedgerEventOptions → LedgerEvent → ℕ → EventContent → Converted
convert_content options event index other_content = nothing
convert_content options event index (contract_log address event_type value) =
    if admits options.contracts address && event_type == text "misc"
    then convert_log options event (position_at options.position_of event index) address value
    else nothing

unfoldable pub part_events_from : LedgerEventOptions → ℕ → List LedgerEvent → Converted
part_events_from options index [] = nothing
part_events_from options index (event ∷ events) =
    let here = convert_content options event index event.content in
    let rest = part_events_from options (index + 1) events in
    record { events = here.events ++ rest.events; issues = here.issues ++ rest.issues }

unfoldable pub part_events_from_ledger_events : List LedgerEvent → LedgerEventOptions → Converted
part_events_from_ledger_events events options = part_events_from options 0 events
