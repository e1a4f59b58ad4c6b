-- ===== src/Indexer/Types.antt =====
-- src/indexer/index.ts: what the indexer answers and what the client makes of it. Heights,
-- timestamps and event ids are natural numbers.
use compact_multi_part_event.Prelude.{
  ℕ, ◌+◌, ◌%◌, Bool, ◌&&◌, ◌||◌, Option, none, some, List, [], ◌∷◌, ◌++◌, map, Text, text, leb,
  nat_eq, not, every, length, if◌then◌else◌, Error, range_error, public_data, Result, ok, throw,
  guard, ◌>>=◌, ◌>>◌,
}
use compact_multi_part_event.Packages.{is_lower_hex}

abbrev pub max_event_page : ℕ
max_event_page = 500

-- `none` where a field is absent, not a string or not a safe integer.
pub record RawBlock : Type 0 where
  pub hash : Option Text
  pub height : Option ℕ
  pub timestamp : Option ℕ
  pub protocol_version : Option ℕ
  pub ledger_parameters : Option Text

pub record IndexedBlock : Type 0 where
  pub hash : Text
  pub height : ℕ
  pub timestamp_ms : ℕ
  pub protocol_version : Option ℕ
  pub ledger_parameters_hex : Option Text

unfoldable pub block_error : Text → Error
block_error what =
    public_data (text "shape") (what ++ text ": block has no hash, height or timestamp")

unfoldable pub to_block : Option RawBlock → Text → Result IndexedBlock
to_block none what = throw (block_error what)
to_block (some block) what = elim block.hash [
  | none ↦ throw (block_error what)
  | some hash ↦ elim block.height [
    | none ↦ throw (block_error what)
    | some height ↦ elim block.timestamp [
      | none ↦ throw (block_error what)
      | some timestamp ↦ ok (record {
        hash = hash;
        height = height;
        timestamp_ms = timestamp;
        protocol_version = block.protocol_version;
        ledger_parameters_hex = block.ledger_parameters;
      })
    ]
  ]
]

pub record Segment : Type 0 where
  pub id : ℕ
  pub success : Bool

-- `transactionResult`, whose segments may be null.
pub record TransactionResult : Type 0 where
  pub status : Text
  pub segments : Option (List Segment)

pub record RawTransaction : Type 0 where
  pub typename : Text
  pub hash : Text
  pub raw : Text
  pub identifiers : Option (List Text)
  pub transaction_result : Option TransactionResult
  pub fee : Option Text
  pub block : RawBlock

pub record IndexedTransaction : Type 0 where
  pub typename : Text
  pub hash : Text
  pub raw_hex : Text
  pub identifiers : List Text
  pub status : Option Text
  pub segments : Option (List Segment)
  pub fee : Option Text
  pub block : IndexedBlock

abbrev pub list_or_empty {ℓ} : {A : Type ℓ} → Option (List A) → List A
list_or_empty none = []
list_or_empty (some list) = list

abbrev pub text_or_empty : Option Text → Text
text_or_empty none = []
text_or_empty (some s) = s

abbrev pub status_of : Option TransactionResult → Option Text
status_of none = none
status_of (some result) = some result.status

abbrev pub segments_of : Option TransactionResult → Option (List Segment)
segments_of none = none
segments_of (some result) = result.segments

unfoldable pub to_transaction : RawTransaction → Result IndexedTransaction
to_transaction tx = do
  block ← to_block (some tx.block) (text "transaction " ++ tx.hash)
  ok (record {
    typename = tx.typename;
    hash = tx.hash;
    raw_hex = tx.raw;
    identifiers = list_or_empty tx.identifiers;
    status = status_of tx.transaction_result;
    segments = segments_of tx.transaction_result;
    fee = tx.fee;
    block = block;
  })

-- `transactions.map(toTransaction)`.
unfoldable pub to_transactions : List RawTransaction → Result (List IndexedTransaction)
to_transactions [] = ok []
to_transactions (tx ∷ txs) = do
  first ← to_transaction tx
  rest ← to_transactions txs
  ok (first ∷ rest)

pub record RawAction : Type 0 where
  pub typename : Text
  pub state : Text
  pub transaction_hash : Text
  pub block_hash : Text
  pub block_height : ℕ

pub record IndexedContractState : Type 0 where
  pub state_hex : Text
  pub action_type : Option Text
  pub transaction_hash : Option Text
  pub block_height : Option ℕ

unfoldable pub to_state : RawAction → IndexedContractState
to_state action = record {
  state_hex = action.state;
  action_type = some action.typename;
  transaction_hash = some action.transaction_hash;
  block_height = some action.block_height;
}

pub record EventBlock : Type 0 where
  pub height : ℕ
  pub hash : Text

pub record EventTransaction : Type 0 where
  pub hash : Text
  pub block : Option EventBlock

pub record RawEvent : Type 0 where
  pub typename : Text
  pub id : ℕ
  pub name : Option Text
  pub payload : Option Text
  pub raw : Option Text
  pub transaction : Option EventTransaction

-- A height of -1 is `none`.
pub record IndexedMiscEvent : Type 0 where
  pub id : ℕ
  pub name_hex : Text
  pub payload_hex : Text
  pub raw_hex : Text
  pub transaction_hash : Text
  pub block_height : Option ℕ
  pub block_hash : Text

abbrev pub event_block : Option EventTransaction → Option EventBlock
event_block none = none
event_block (some transaction) = transaction.block

abbrev pub event_hash : Option EventTransaction → Text
event_hash none = []
event_hash (some transaction) = transaction.hash

abbrev pub height_of : Option EventBlock → Option ℕ
height_of none = none
height_of (some block) = some block.height

abbrev pub hash_of : Option EventBlock → Text
hash_of none = []
hash_of (some block) = block.hash

unfoldable pub to_misc_event : RawEvent → IndexedMiscEvent
to_misc_event event = record {
  id = event.id;
  name_hex = text_or_empty event.name;
  payload_hex = text_or_empty event.payload;
  raw_hex = text_or_empty event.raw;
  transaction_hash = event_hash event.transaction;
  block_height = height_of (event_block event.transaction);
  block_hash = hash_of (event_block event.transaction);
}

-- `isHex`.
unfoldable pub is_hex : Text → Bool
is_hex value = every is_lower_hex value && nat_eq (length value % 2) 0

-- `value.replace(/^0x/i, "")`.
unfoldable pub without_prefix : Text → Text
without_prefix [] = []
without_prefix (c ∷ []) = c ∷ []
without_prefix (c ∷ d ∷ rest) =
    if nat_eq c 48 && (nat_eq d 120 || nat_eq d 88) then rest else c ∷ d ∷ rest

-- `toLowerCase` on ASCII: no other character becomes a hex digit.
unfoldable pub lower_case : Text → Text
lower_case s = map (λ c. if leb 65 c && leb c 90 then c + 32 else c) s

unfoldable pub normalize_hex : Text → Text → Result Text
normalize_hex value name = do
  let hex = lower_case (without_prefix value)
  guard (is_hex hex && not (nat_eq (length hex) 0)) (range_error (name ++ text " must be hex"))
  ok hex
