-- ===== src/Indexer/Conversion/Agreement.antt =====
-- `partEventsFromIndexer` of src/indexer/index.ts against what the raw ledger events say.
use compact_multi_part_event.Prelude.{
  some, Bool, true, false, ◌&&◌, ◌||◌, List, [], ◌∷◌, ◌++◌, append-nil, append-eq-nil, map, Text,
  Bytes, text, if◌then◌else◌, ◌==◌, text_eq, Result, ok, throw, ◌≡◌, refl, sym, ap, ◌∙◌, inl, inr,
  ◌⊎◌, arith,
}
use compact_multi_part_event.Bytes.Order.{bytes_equal_iff}
use compact_multi_part_event.Indexer.Conversion.{
  ConversionOptions, typed_value, hash_issues, typed_issues, event_issues, convert_event, raw_event,
  convert_item, part_events_from_indexer,
}
use compact_multi_part_event.Indexer.Types.{IndexedMiscEvent}
use compact_multi_part_event.Ledger.{
  LedgerEvent, EventContent, contract_log, other_content, StateValue,
}
use compact_multi_part_event.Packages.{PartEvent}
use compact_multi_part_event.Transaction.{
  Decoded, decoded, malformed, decode_misc_value, LedgerEventOptions, convert_log, convert_content,
  includes, part_events_from, part_events_from_ledger_events,
}

-- The part that a ledger event, read with an indexer event, stands for.
pub record IsRead (options : ConversionOptions) (item : IndexedMiscEvent) (e : LedgerEvent)
    (part : PartEvent) : Type 0 where
  pub value : StateValue
  pub logged : e.content ≡ contract_log options.contract (text "misc") value
  pub decodes : decode_misc_value value ≡ decoded part.value
  pub network : part.network ≡ options.network
  pub contract : part.contract ≡ options.contract
  pub position : part.position ≡ item.id
  pub segment : part.segment ≡ e.physical_segment
  pub hash : part.transaction_hash ≡ e.transaction_hash

abbrev pub IsOther : ConversionOptions → LedgerEvent → Type 0
IsOther options e =
    (value : StateValue) → ¬ (e.content ≡ contract_log options.contract (text "misc") value)

-- The parts of indexer events: one for each `Misc` log of the contract, in order, whose hash and
-- typed fields are the indexer event's.
pub data IsReadAs (event_of : Bytes → Result LedgerEvent) (options : ConversionOptions)
    : List IndexedMiscEvent → List PartEvent → Type 0 where
  all_read : IsReadAs event_of options [] []
  other :
      (item : IndexedMiscEvent) (items : List IndexedMiscEvent) (parts : List PartEvent)
      (e : LedgerEvent)
      → raw_event event_of item ≡ ok e
      → IsOther options e
      → IsReadAs event_of options items parts
      → IsReadAs event_of options (item ∷ items) parts
  read :
      (item : IndexedMiscEvent) (items : List IndexedMiscEvent) (part : PartEvent)
      (parts : List PartEvent) (e : LedgerEvent)
      → raw_event event_of item ≡ ok e
      → IsRead options item e part
      → part.transaction_hash ≡ item.transaction_hash
      → typed_value item ≡ ok part.value
      → IsReadAs event_of options items parts
      → IsReadAs event_of options (item ∷ items) (part ∷ parts)

no_issue : (test : Bool) (issue : Text) → (if test then [] else issue ∷ []) ≡ [] → test ≡ true
no_issue true issue h = refl
no_issue false issue h = cc

hash_issues-none :
    (item : IndexedMiscEvent) (part : PartEvent)
    → hash_issues item part ≡ []
    → part.transaction_hash ≡ item.transaction_hash
unfolding hash_issues
hash_issues-none item part h = (text_eq.beq_iff _ _).0 (no_issue _ _ h)

typed_issues-none :
    (item : IndexedMiscEvent) (part : PartEvent)
    → typed_issues item part ≡ []
    → typed_value item ≡ ok part.value
unfolding typed_issues
typed_issues-none item part h = cases (typed_value item) refl
  where
    cases : (r : Result Bytes) → typed_value item ≡ r → typed_value item ≡ ok part.value
    cases (ok value) same =
        same
        ∙ ap ok ((bytes_equal_iff value part.value).0 (no_issue _ _ (rw (typed_issues, same) at h)))
    cases (throw e) same = let no = rw (typed_issues, same) at h in cc

abbrev ledger_options : ConversionOptions → IndexedMiscEvent → LedgerEventOptions
ledger_options options item = record {
  network = options.network;
  contracts = some (options.contract ∷ []);
  position_of = some (λ e index. item.id);
}

-- What the conversion of a ledger event leaves.
abbrev IsOneOrNone : ConversionOptions → IndexedMiscEvent → LedgerEvent → List PartEvent → Type 0
IsOneOrNone options item e parts =
    (IsOther options e × (parts ≡ []))
    ⊎ ((part : PartEvent) × IsRead options item e part × (parts ≡ part ∷ []))

convert_log-cases :
    (options : ConversionOptions) (item : IndexedMiscEvent) (e : LedgerEvent) (address : Text)
    (value : StateValue)
    → address ≡ options.contract
    → e.content ≡ contract_log options.contract (text "misc") value
    → (convert_log (ledger_options options item) e item.id address value).issues ≡ []
    → IsOneOrNone options item e
        (convert_log (ledger_options options item) e item.id address value).events
unfolding convert_log
convert_log-cases options item e address value p h = by_value (decode_misc_value value) refl
  where
    by_value :
        (d : Decoded Bytes)
        → decode_misc_value value ≡ d
        → (convert_log (ledger_options options item) e item.id address value).issues ≡ []
        → IsOneOrNone options item e
            (convert_log (ledger_options options item) e item.id address value).events
    by_value (malformed m) same none = let no = rw (convert_log, same) at none in cc
    by_value (decoded bytes) same none = inr (
      record {
        network = options.network;
        contract = address;
        transaction_hash = e.transaction_hash;
        segment = e.physical_segment;
        position = item.id;
        value = bytes;
      },
      record {
        value = value;
        logged = h;
        decodes = same;
        network = refl;
        contract = p;
        position = refl;
        segment = refl;
        hash = refl;
      },
      rw (convert_log, same) refl,
    )

convert_content-cases :
    (options : ConversionOptions) (item : IndexedMiscEvent) (e : LedgerEvent) (c : EventContent)
    → e.content ≡ c
    → (convert_content (ledger_options options item) e 0 c).issues ≡ []
    → IsOneOrNone options item e (convert_content (ledger_options options item) e 0 c).events
unfolding convert_content includes
convert_content-cases options item e other_content h none =
    inl ((λ value same. let no = sym h ∙ same in cc), refl)
convert_content-cases options item e (contract_log address type value) h none =
    by_test ((options.contract == address || false) && type == text "misc") refl none
  where
    by_test :
        (b : Bool)
        → ((options.contract == address || false) && type == text "misc") ≡ b
        → (convert_content
            (ledger_options options item)
            e
            0
            (contract_log address type value)).issues
          ≡ []
        → IsOneOrNone options item e
            (convert_content
              (ledger_options options item)
              e
              0
              (contract_log address type value)).events
    by_test true same none =
        let p : address ≡ options.contract =
          ground (arith, same, (text_eq.beq_iff options.contract address).0) in
        let q : type ≡ text "misc" = ground (arith, same, (text_eq.beq_iff type (text "misc")).0) in
        let logged : e.content ≡ contract_log options.contract (text "misc") value =
          rw (h, p, q) refl in
        let quiet = rw (convert_content, same) at none in
        rw (convert_content, same) (convert_log-cases options item e address value p logged quiet)
    by_test false same none = inl (differs, rw (convert_content, same) refl)
      where
        differs : IsOther options e
        differs v logged =
            let both = sym h ∙ logged in
            let p : options.contract ≡ address = cc in
            let q : type ≡ text "misc" = cc in
            absurd (
              ground (
                arith,
                same,
                (text_eq.beq_iff options.contract address).1 p,
                (text_eq.beq_iff type (text "misc")).1 q,
              ))

pub convert_event-cases :
    (options : ConversionOptions) (item : IndexedMiscEvent) (e : LedgerEvent)
    → (convert_event options item e).issues ≡ []
    → IsOneOrNone options item e (convert_event options item e).events
unfolding convert_event part_events_from_ledger_events part_events_from
convert_event-cases options item e none =
    let content = convert_content (ledger_options options item) e 0 e.content in
    rw (append-nil content.events)
      (convert_content-cases options item e e.content refl (append-eq-nil content.issues [] none).0)

map-eq-nil : (f : Text → Text) (xs : List Text) → map f xs ≡ [] → xs ≡ []
map-eq-nil f [] h = refl
map-eq-nil f (x ∷ xs) h = cc

-- If indexer events are converted without an issue, then each raw event decodes, and the parts are,
-- in order, one for each misc log of the contract, with the log's value restored, its intent and
-- the indexer's position, the same transaction hash as the indexer's, and the same value as the
-- typed fields.
pub part_events_from_indexer-IsReadAs :
    (event_of : Bytes → Result LedgerEvent) (options : ConversionOptions)
    (items : List IndexedMiscEvent)
    → (part_events_from_indexer event_of options items).issues ≡ []
    → IsReadAs event_of options items (part_events_from_indexer event_of options items).events
unfolding part_events_from_indexer convert_item event_issues
part_events_from_indexer-IsReadAs event_of options [] none = all_read
part_events_from_indexer-IsReadAs event_of options (item ∷ items) none =
    by_event (raw_event event_of item) refl
      (append-eq-nil (convert_item event_of options item).issues _ none).0
      (part_events_from_indexer-IsReadAs event_of options items
        (append-eq-nil (convert_item event_of options item).issues _ none).1)
  where
    rest : List PartEvent
    rest = (part_events_from_indexer event_of options items).events

    by_parts :
        (e : LedgerEvent) (parts : List PartEvent)
        → raw_event event_of item ≡ ok e
        → event_issues item parts ≡ []
        → IsReadAs event_of options items rest
        → IsOneOrNone options item e parts
        → IsReadAs event_of options (item ∷ items) (parts ++ rest)
    by_parts e parts same quiet later (inl (differs, no_parts)) =
        rw no_parts (other item items rest e same differs later)
    by_parts e parts same quiet later (inr (part, agrees, only)) =
        let silent = rw only at quiet in
        let first = append-eq-nil (hash_issues item part ++ typed_issues item part) [] silent in
        let second = append-eq-nil (hash_issues item part) (typed_issues item part) first.0 in
        rw only (
          read item items part rest e same agrees (hash_issues-none item part second.0)
            (typed_issues-none item part second.1) later)

    by_event :
        (r : Result LedgerEvent)
        → raw_event event_of item ≡ r
        → (convert_item event_of options item).issues ≡ []
        → IsReadAs event_of options items rest
        → IsReadAs event_of options
            (item ∷ items)
            ((convert_item event_of options item).events ++ rest)
    by_event (throw x) same quiet later = let no = rw (convert_item, same) at quiet in cc
    by_event (ok e) same quiet later =
        let both = append-eq-nil _ _ (rw (convert_item, same) at quiet) in
        rw (convert_item, same)
          (by_parts e (convert_event options item e).events same both.1 later
            (convert_event-cases options item e (map-eq-nil _ _ both.0)))
