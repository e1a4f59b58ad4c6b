-- ===== src/Indexer/Conversion.antt =====
-- src/indexer/index.ts: reader input from indexer events. `Event.deserialize` of the ledger library
-- is the parameter `event_of`.
pub mod Agreement
use compact_multi_part_event.Prelude.{
  ℕ, Bool, true, false, Option, none, some, List, [], ◌∷◌, ◌++◌, map, Text, Bytes, text, decimal,
  if◌then◌else◌, ◌==◌, text_eq, Result, ok, throw, ◌>>=◌, ◌≡◌, refl, sym, ap, ◌∙◌,
}
use compact_multi_part_event.Bytes.{hex_to_bytes, bytes_equal}
use compact_multi_part_event.Event.{
  RestoredEvent, event_value, IndexerMiscFields, restore_indexer_misc_event,
}
use compact_multi_part_event.Finalize.{message_of}
use compact_multi_part_event.Indexer.Types.{IndexedMiscEvent}
use compact_multi_part_event.Ledger.{
  LedgerEvent, EventContent, contract_log, other_content, StateValue,
}
use compact_multi_part_event.Packages.{PartEvent}
use compact_multi_part_event.Transaction.{
  Converted, LedgerEventOptions, part_events_from_ledger_events,
}

pub record ConversionOptions : Type 0 where
  pub network : Text
  pub contract : Text

unfoldable pub event_label : IndexedMiscEvent → Text
event_label item = text "indexer event " ++ decimal item.id

-- The value of the typed fields.
unfoldable pub typed_value : IndexedMiscEvent → Result Bytes
typed_value item = do
  typed ← restore_indexer_misc_event (record { name = item.name_hex; payload = item.payload_hex })
  event_value typed.name typed.payload

unfoldable pub hash_issues : IndexedMiscEvent → PartEvent → List Text
hash_issues item event =
    if event.transaction_hash == item.transaction_hash
    then []
    else (event_label item ++ text ": raw transaction hash differs from the indexer's transaction")
      ∷ []

unfoldable pub typed_issues : IndexedMiscEvent → PartEvent → List Text
typed_issues item event = elim (typed_value item) [
  | ok value ↦
      if bytes_equal value event.value
      then []
      else (event_label item ++ text ": typed name/payload disagree with the raw event") ∷ []
  | throw e ↦ (event_label item ++ text ": typed fields: " ++ message_of e) ∷ []
]

-- The loop over the events of an item.
unfoldable pub event_issues : IndexedMiscEvent → List PartEvent → List Text
event_issues item [] = []
event_issues item (event ∷ events) =
    hash_issues item event ++ typed_issues item event ++ event_issues item events

-- The item's only ledger event, converted with the item's id as its position.
unfoldable pub convert_event : ConversionOptions → IndexedMiscEvent → LedgerEvent → Converted
convert_event options item event = part_events_from_ledger_events (event ∷ []) (record {
  network = options.network;
  contracts = some (options.contract ∷ []);
  position_of = some (λ e index. item.id);
})

module _ (event_of : Bytes → Result LedgerEvent) where
  -- `ledger.Event.deserialize(hexToBytes(item.rawHex))`.
  unfoldable pub raw_event : IndexedMiscEvent → Result LedgerEvent
  raw_event item = do bytes ← hex_to_bytes item.raw_hex; event_of bytes

  unfoldable pub convert_item : ConversionOptions → IndexedMiscEvent → Converted
  convert_item options item = elim (raw_event item) [
    | throw e ↦ record {
      events = [];
      issues = (event_label item ++ text ": raw bytes do not decode; its intent is unknown") ∷ [];
    }
    | ok event ↦
        let converted = convert_event options item event in
        record {
          events = converted.events;
          issues =
              map (λ issue. event_label item ++ text ": " ++ issue) converted.issues
              ++ event_issues item converted.events;
        }
  ]

  unfoldable pub part_events_from_indexer : ConversionOptions → List IndexedMiscEvent → Converted
  part_events_from_indexer options [] = record { events = []; issues = [] }
  part_events_from_indexer options (item ∷ items) =
      let here = convert_item options item in
      let rest = part_events_from_indexer options items in
      record { events = here.events ++ rest.events; issues = here.issues ++ rest.issues }
