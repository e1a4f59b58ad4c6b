-- ===== src/Indexer/Operations.antt =====
-- src/indexer/index.ts: the client's operations. The `none` of `misc_events` says that the rounds
-- given did not reach a short page; the source has no such bound.
pub mod Paging
use compact_multi_part_event.Prelude.{
  ℕ, zero, suc, ◌+◌, ◌/◌, Bool, true, false, ◌&&◌, Option, none, some, List, [], ◌∷◌, ◌++◌, map,
  Text, Bytes, text, decimal, ltb, leb, if◌then◌else◌, ◌==◌, text_eq, length, select, Error,
  range_error, public_data, Result, ok, throw, guard,
}
use compact_multi_part_event.Bytes.{hex_to_bytes}
use compact_multi_part_event.Finalize.{PinnedBlock, or_some}
use compact_multi_part_event.Indexer.Types.{
  max_event_page, IndexedBlock, to_block, IndexedTransaction, to_transactions, IndexedContractState,
  to_state, RawEvent, RawBlock, RawAction, IndexedMiscEvent, to_misc_event, normalize_hex,
}
use compact_multi_part_event.Indexer.Query.{
  Query, latest_block, block_by_hash, block_by_height, latest_action, contract_at,
  transactions_by_hash, transactions_by_identifier, contract_events, Call, Client, query,
}
use compact_multi_part_event.Process.{Process, pure, fail, lift, ◌>>=◌, ◌>>◌}

-- A block that may be null.
unfoldable pub block_or_none : Option RawBlock → Text → Result (Option IndexedBlock)
block_or_none none what = ok none
block_or_none (some block) what = elim (to_block (some block) what) [
  | ok indexed ↦ ok (some indexed)
  | throw e ↦ throw e
]

pub record ContractAt : Type 0 where
  pub state : Option IndexedContractState
  pub block : Option IndexedBlock

abbrev pub latest_state : Option RawAction → ContractAt
latest_state none = record { state = none; block = none }
latest_state (some action) = record { state = some (to_state action); block = none }

abbrev pub state_at : Option Text → Option IndexedContractState
state_at none = none
state_at (some hex) =
    some
      (record { state_hex = hex; action_type = none; transaction_hash = none; block_height = none })

pub record MiscOptions : Type 0 where
  pub transaction_hash : Option Text
  pub page_size : Option ℕ
  pub max_events : Option ℕ

-- The `Misc` events of a page.
unfoldable pub misc_of : List RawEvent → List IndexedMiscEvent
misc_of events =
    map to_misc_event (select (λ event. event.typename == text "MiscContractEvent") events)

unfoldable pub refusal : ℕ → Error
refusal most =
    public_data (text "shape") (text "more than " ++ decimal most ++ text " events; refusing")

-- `options.transactionHash`, normalized if it is there.
unfoldable pub normalize_option : Option Text → Text → Result (Option Text)
normalize_option none name = ok none
normalize_option (some value) name = elim (normalize_hex value name) [
  | ok hex ↦ ok (some hex)
  | throw e ↦ throw e
]

abbrev pub params_hex : Option IndexedBlock → Option Text
params_hex none = none
params_hex (some block) = block.ledger_parameters_hex

-- The snapshot of a state and a block, both of which must be there.
unfoldable pub snapshot_at :
    {Params : Type 0} → (Bytes → Result Params) → Text → Text → ContractAt → Result (Bytes × Params)
snapshot_at deserialize_params address block_hash found = elim found.state [
  | none ↦ throw (
      public_data (text "not-found")
        (text "no contract " ++ address ++ text " at block " ++ block_hash))
  | some state ↦ elim (params_hex found.block) [
    | none ↦
        throw
          (public_data (text "not-found") (text "no ledger parameters for block " ++ block_hash))
    | some hex ↦ elim (hex_to_bytes state.state_hex) [
      | throw e ↦ throw e
      | ok bytes ↦ elim (hex_to_bytes hex) [
        | throw e ↦ throw e
        | ok raw ↦ elim (deserialize_params raw) [
          | throw e ↦ throw e
          | ok params ↦ ok (bytes, params)
        ]
      ]
    ]
  ]
]

module _ (C : Client) where
  open C use {State}

  unfoldable pub client_latest_block : Process State Call IndexedBlock
  client_latest_block = do block ← query C latest_block; lift (to_block block (text "latest block"))

  unfoldable pub client_block_by_hash : Text → Process State Call (Option IndexedBlock)
  client_block_by_hash hash = do
    hex ← lift (normalize_hex hash (text "block hash"))
    block ← query C (block_by_hash hex)
    lift (block_or_none block (text "block " ++ hash))

  unfoldable pub client_block_by_height : ℕ → Process State Call (Option IndexedBlock)
  client_block_by_height height = do
    block ← query C (block_by_height height)
    lift (block_or_none block (text "block " ++ decimal height))

  unfoldable pub contract_state : Text → Option Text → Process State Call ContractAt
  contract_state address none = do
    hex ← lift (normalize_hex address (text "contract address"))
    action ← query C (latest_action hex)
    pure (latest_state action)
  contract_state address (some block_hash) = do
    hex ← lift (normalize_hex address (text "contract address"))
    at ← lift (normalize_hex block_hash (text "block hash"))
    found ← query C (contract_at hex at)
    block ← lift (block_or_none found.1 (text "block " ++ block_hash))
    pure (record { state = state_at found.0; block = block })

  unfoldable pub client_transactions_by_hash : Text → Process State Call (List IndexedTransaction)
  client_transactions_by_hash hash = do
    hex ← lift (normalize_hex hash (text "transaction hash"))
    txs ← query C (transactions_by_hash hex)
    lift (to_transactions txs)

  unfoldable pub client_transactions_by_identifier :
      Text → Process State Call (List IndexedTransaction)
  client_transactions_by_identifier identifier = do
    hex ← lift (normalize_hex identifier (text "transaction identifier"))
    txs ← query C (transactions_by_identifier hex)
    lift (to_transactions txs)

  -- The loop over the pages, from an offset, with the rounds that are left.
  unfoldable pub collect_pages :
      (rounds : ℕ)
      → Text
      → Option Text
      → (page_size most offset : ℕ) → List IndexedMiscEvent
      → Process State Call (Option (List IndexedMiscEvent))
  collect_pages zero address tx page_size most offset out = pure none
  collect_pages (suc rounds) address tx page_size most offset out = do
    events ← query C (contract_events address tx page_size offset)
    let out' = out ++ misc_of events
    elim (ltb most (length out')) [
      | true ↦ fail (refusal most)
      | false ↦ elim (ltb (length events) page_size) [
        | true ↦ pure (some out')
        | false ↦ collect_pages rounds address tx page_size most (offset + page_size) out'
      ]
    ]

  unfoldable pub misc_events :
      ℕ → Text → MiscOptions → Process State Call (Option (List IndexedMiscEvent))
  misc_events rounds address options = do
    let page_size = or_some options.page_size max_event_page
    lift (
        guard (leb 1 page_size && leb page_size max_event_page)
          (range_error (text "pageSize must be 1..500")))
    hex ← lift (normalize_hex address (text "contract address"))
    tx ← lift (normalize_option options.transaction_hash (text "transaction hash"))
    collect_pages rounds hex tx page_size (or_some options.max_events 4096) 0 []

  -- `indexerStateSource(client).latestBlock`.
  unfoldable pub source_latest_block : Process State Call PinnedBlock
  source_latest_block = do
    block ← client_latest_block
    pure (record {
      hash = block.hash;
      height = block.height;
      timestamp_seconds = block.timestamp_ms / 1000;
    })

  -- `indexerStateSource(client).contractStateAt`.
  unfoldable pub source_contract_state_at :
      {Params : Type 0}
      → (Bytes → Result Params)
      → Text
      → Text
      → Process State Call (Bytes × Params)
  source_contract_state_at deserialize_params address block_hash = do
    found ← contract_state address (some block_hash)
    lift (snapshot_at deserialize_params address block_hash found)
