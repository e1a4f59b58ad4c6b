-- ===== src/Verification/Sources.antt =====
-- src/cli/verify.ts: the sources of public data, the indexer with an optional node and saved bytes.
use compact_multi_part_event.Prelude.{
  ℕ, Bool, false, not, Option, none, some, List, [], ◌∷◌, ◌++◌, Text, Bytes, text, length,
  if◌then◌else◌, ◌==◌, text_eq, Dictionary, lookup, store, range_error, out_of_rounds, Result, ok,
  throw,
}
use compact_multi_part_event.Bytes.{hex_to_bytes, bytes_to_hex}
use compact_multi_part_event.Finalize.{or_some}
use compact_multi_part_event.Indexer.Conversion.{part_events_from_indexer}
use compact_multi_part_event.Indexer.Node.{NodeReply, raw_transaction_in_block}
use compact_multi_part_event.Indexer.Operations.{
  misc_events, client_transactions_by_hash, contract_state,
}
use compact_multi_part_event.Indexer.Query.{Client, Call}
use compact_multi_part_event.Indexer.Types.{
  IndexedMiscEvent, IndexedTransaction, IndexedContractState, text_or_empty,
}
use compact_multi_part_event.Indexer.Waiting.{first_of}
use compact_multi_part_event.Ledger.{Ledger, LedgerEvent}
use compact_multi_part_event.Packages.{PartEvent, default_reader_limits}
use compact_multi_part_event.Process.{Process, pure, fail, lift, ◌>>=◌}
use compact_multi_part_event.Transaction.{
  is_empty, deserialize_transaction, part_events_from_transaction,
}
use compact_multi_part_event.Verification.Records.{
  BlockRef, SourceTransaction, SourceEvents, VerifySource,
}

pub record IndexerSourceOptions : Type 0 where
  pub network : Text
  pub max_events : Option ℕ

-- The maps `byTransaction` and `blocks`.
pub record Gathered : Type 0 where
  pub by_transaction : Dictionary Text (List IndexedMiscEvent)
  pub blocks : Dictionary Text BlockRef

abbrev pub no_items : Gathered
no_items = record { by_transaction = []; blocks = [] }

unfoldable pub items_or_empty : Option (List IndexedMiscEvent) → List IndexedMiscEvent
items_or_empty none = []
items_or_empty (some items) = items

-- A height of -1 is `none`.
unfoldable pub store_block : IndexedMiscEvent → Dictionary Text BlockRef → Dictionary Text BlockRef
store_block item blocks = elim item.block_height [
  | none ↦ blocks
  | some height ↦
      if is_empty item.block_hash
      then blocks
      else store item.transaction_hash (record { hash = item.block_hash; height = height }) blocks
]

-- The loop over the events.
unfoldable pub gather : Gathered → List IndexedMiscEvent → Gathered
gather gathered [] = gathered
gather gathered (item ∷ items) =
    let before = items_or_empty (lookup item.transaction_hash gathered.by_transaction) in
    gather
      (record {
        by_transaction = store item.transaction_hash (before ++ item ∷ []) gathered.by_transaction;
        blocks = store_block item gathered.blocks;
      })
      items

-- The events and the issues of the transactions, converted one by one.
pub record ConvertedAll : Type 0 where
  pub events : List PartEvent
  pub issues : Dictionary Text (List Text)

module _ (event_of : Bytes → Result LedgerEvent) (network contract : Text) where
  unfoldable pub convert_all : Dictionary Text (List IndexedMiscEvent) → ConvertedAll
  convert_all [] = record { events = []; issues = [] }
  convert_all ((hash, items) ∷ more) =
      let converted =
        part_events_from_indexer event_of (record { network = network; contract = contract })
          items in
      let rest = convert_all more in
      record {
        events = converted.events ++ rest.events;
        issues =
            if is_empty converted.issues
            then rest.issues
            else (hash, converted.issues) ∷ rest.issues;
      }

  unfoldable pub source_events : List IndexedMiscEvent → SourceEvents
  source_events indexed =
      let gathered = gather no_items indexed in
      let converted = convert_all gathered.by_transaction in
      record {
        events = converted.events;
        issues = converted.issues;
        blocks = gathered.blocks;
        count = length indexed;
      }

unfoldable pub source_transaction : Option IndexedTransaction → Result (Option SourceTransaction)
source_transaction none = ok none
source_transaction (some found) = elim (hex_to_bytes found.raw_hex) [
  | throw e ↦ throw e
  | ok raw ↦ ok (
      some (record {
        hash = found.hash;
        raw = raw;
        status = text_or_empty found.status;
        block = some (record { hash = found.block.hash; height = found.block.height });
      }))
]

unfoldable pub state_bytes : Option IndexedContractState → Result (Option Bytes)
state_bytes none = ok none
state_bytes (some state) = elim (hex_to_bytes state.state_hex) [
  | throw e ↦ throw e
  | ok bytes ↦ ok (some bytes)
]

abbrev pub block_hash_of : Option BlockRef → Option Text
block_hash_of none = none
block_hash_of (some block) = some block.hash

module _ (C : Client) (event_of : Bytes → Result LedgerEvent) (rounds : ℕ) where
  open C use {State}

  -- The pages that `rounds` allow; the source follows all of them.
  unfoldable pub all_misc_events :
      Text → Option Text → ℕ → Process State Call (List IndexedMiscEvent)
  all_misc_events contract transaction_hash most = do
    found ←
        misc_events C rounds contract
          (record { transaction_hash = transaction_hash; page_size = none; max_events = some most })
    elim found [ none ↦ fail out_of_rounds | some indexed ↦ pure indexed ]

  unfoldable pub indexer_events :
      IndexerSourceOptions → Text → Option Text → Process State Call SourceEvents
  indexer_events options contract transaction_hash = do
    indexed ←
        all_misc_events contract transaction_hash
          (or_some options.max_events default_reader_limits.max_events)
    pure (source_events event_of options.network contract indexed)

  unfoldable pub indexer_transaction : Text → Process State Call (Option SourceTransaction)
  indexer_transaction hash = do
    found ← client_transactions_by_hash C hash
    lift (source_transaction (first_of found))

  unfoldable pub indexer_contract_state : Text → Option BlockRef → Process State Call (Option Bytes)
  indexer_contract_state contract block = do
    found ← contract_state C contract (block_hash_of block)
    lift (state_bytes found.state)

  -- With the node's answers, where a node is configured.
  unfoldable pub indexer_source :
      IndexerSourceOptions → Option (Text → State → NodeReply × State) → VerifySource
  indexer_source options node = record {
    State = State;
    Call = Call;
    description = text "indexer " ++ C.url;
    events = indexer_events options;
    transaction = indexer_transaction;
    contract_state = indexer_contract_state;
    node_holds = elim node [
      | none ↦ none
      | some fetch ↦ some (λ hash raw. raw_transaction_in_block fetch hash (bytes_to_hex raw))
    ];
  }

pub record SavedData : Type 0 where
  pub network : Text
  pub raw : Bytes
  pub status : Text
  pub transaction_hash : Option Text
  pub contract_state : Option Bytes
  pub block : Option BlockRef

abbrev pub is_other : Option Text → Text → Bool
is_other none hash = false
is_other (some requested) hash = not (requested == hash)

abbrev pub no_events : SourceEvents
no_events = record { events = []; issues = []; blocks = []; count = 0 }

abbrev pub saved_blocks : Text → Option BlockRef → Dictionary Text BlockRef
saved_blocks hash none = []
saved_blocks hash (some block) = (hash, block) ∷ []

module _ (L : Ledger) where
  open L use {Tx}

  -- The reported hash, or the bytes' own.
  abbrev pub known_hash : Option Text → Option Text → Option Text
  known_hash (some reported) own = some reported
  known_hash none own = own

  unfoldable pub saved_events : SavedData → Tx → Text → Text → Option Text → SourceEvents
  saved_events saved tx hash contract transaction_hash =
      if is_other transaction_hash hash
      then no_events
      else (let extracted =
            part_events_from_transaction L tx
              (record { network = saved.network; contract = contract; transaction_hash = hash }) in
          record {
            events = extracted.events;
            issues = if is_empty extracted.issues then [] else (hash, extracted.issues) ∷ [];
            blocks = saved_blocks hash saved.block;
            count = length extracted.events;
          })

  unfoldable pub saved_transaction : SavedData → Text → Text → Option SourceTransaction
  saved_transaction saved hash requested =
      if requested == hash
      then some
          (record { hash = hash; raw = saved.raw; status = saved.status; block = saved.block })
      else none

  -- For decoded bytes with a known hash.
  unfoldable pub source_of : SavedData → Tx → Text → VerifySource
  source_of saved tx hash = record {
    State = Unit;
    Call = Unit;
    description = text "saved raw transaction";
    events =
        λ contract transaction_hash. pure (saved_events saved tx hash contract transaction_hash);
    transaction = λ requested. pure (saved_transaction saved hash requested);
    contract_state = λ contract block. pure saved.contract_state;
    node_holds = none;
  }

  unfoldable pub saved_source : SavedData → Result VerifySource
  saved_source saved = elim (deserialize_transaction L saved.raw) [
    | throw e ↦ throw (range_error (text "the saved bytes are not a ledger-v9 transaction"))
    | ok tx ↦ elim (known_hash saved.transaction_hash (L.transaction_hash tx)) [
      | none ↦ throw (
          range_error
            (text "the saved bytes carry no transaction hash; pass the one the chain reported"))
      | some hash ↦ ok (source_of saved tx hash)
    ]
  ]
