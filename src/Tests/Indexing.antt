-- ===== src/Tests/Indexing.antt =====
-- Runs of the indexer client, the code of src/indexer/, and of the reader on its events.
use compact_multi_part_event.Prelude.{
  range_error, ◌+◌, ◌≢◌, ℕ, zero, suc, ◌≡◌, ◌≤◌, refl, none, some, [], ◌∷◌, ◌++◌, Option, Bytes,
  text, Result, ok, throw, arith, take, drop, length, list_eq, sort, decimal,
}
use compact_multi_part_event.Bytes.{
  is_hex_digit, bytes_equal, same_bytes, bytes_to_hex, hex_digit, hex_to_bytes, digit_value,
  decode_pairs,
}
use compact_multi_part_event.Event.{
  Name, event_name, restore_event_value, split_event_value, event_value, overwrite,
  restore_indexer_misc_event,
}
use compact_multi_part_event.Indexer.Conversion.{
  part_events_from_indexer, convert_item, raw_event, convert_event, event_issues, hash_issues,
  typed_issues, typed_value,
}
use compact_multi_part_event.Indexer.Conversion.Agreement.{
  IsReadAs, part_events_from_indexer-IsReadAs,
}
use compact_multi_part_event.Indexer.Operations.{
  MiscOptions, misc_of, misc_events, normalize_option,
}
use compact_multi_part_event.Indexer.Operations.Paging.{Answers, misc_events-collected}
use compact_multi_part_event.Indexer.Query.{
  Query, latest_block, block_by_hash, block_by_height, latest_action, contract_at,
  transactions_by_hash, transactions_by_identifier, contract_events, DataOf, Reply, failed,
  answered, outcome, body_outcome, data_of, ended, ClientOptions, Client, new_client, query,
}
use compact_multi_part_event.Indexer.Query.Retries.{
  Transient, none_yet, one_more, attempt_calls, query-ended, query_bounded,
}
use compact_multi_part_event.Indexer.Types.{
  RawBlock, RawEvent, IndexedMiscEvent, normalize_hex, without_prefix, lower_case, is_hex,
}
use compact_multi_part_event.Indexer.Waiting.{WaitOptions, wait_for_transaction}
use compact_multi_part_event.Indexer.Waiting.Deadline.{wait_for_transaction-ends}
use compact_multi_part_event.Json.{escape_unit, escape, quote, stringify}
use compact_multi_part_event.Ledger.{LedgerEvent, contract_log}
use compact_multi_part_event.Packages.{
  PartEvent, ReadOptions, ReadOutput, read_packages, collect_names, delivery_of, name_of,
  candidates_for, group_for, deliver, read_event, read_events, prepare, is_address,
  validate_reader_limits, check_event, group_key, survey_value, survey_delivery, survey, part_at,
  package_of, evaluate,
}
use compact_multi_part_event.Packages.Output.{IsReadOutput, read_packages-IsReadOutput}
use compact_multi_part_event.Tests.Toy.{toy_contract, toy_name, toy_part, toy_value}
use compact_multi_part_event.Transaction.{
  part_events_from_ledger_events, part_events_from, convert_content, convert_log, includes,
  decode_misc_value, cell_atom, atom_width, only_atom,
}

abbrev toy_block : RawBlock
toy_block = record {
  hash = some (text "b");
  height = some 1;
  timestamp = some 1000;
  protocol_version = none;
  ledger_parameters = none;
}

abbrev toy_event : RawEvent
toy_event = record {
  typename = text "MiscContractEvent";
  id = 3;
  name = some (text "01");
  payload = none;
  raw = none;
  transaction = none;
}

abbrev content_for : (q : Query) → DataOf q
content_for latest_block = some toy_block
content_for (block_by_hash hash) = none
content_for (block_by_height height) = none
content_for (latest_action address) = none
content_for (contract_at address block_hash) = (none, none)
content_for (transactions_by_hash hash) = []
content_for (transactions_by_identifier identifier) = []
content_for (contract_events address tx limit offset) =
    take limit (drop offset (toy_event ∷ toy_event ∷ []))

-- The first request fails; those after it are answered.
abbrev toy_fetch : (q : Query) → ℕ → Reply (DataOf q) × ℕ
toy_fetch q zero = (failed (text "down"), 1)
toy_fetch q (suc n) =
    (answered 200 (ok (record { errors = []; content = some (content_for q) })), suc n)

abbrev client_options : ClientOptions
client_options = record {
  State = ℕ;
  url = text "u";
  fetch = λ url timeout_ms. toy_fetch;
  timeout_ms = none;
  max_attempts = some 3;
}

abbrev toy_client : Client
toy_client = record { State = ℕ; url = text "u"; fetch = toy_fetch; max_attempts = 3 }

opens : new_client (λ url. ok (text "http:")) client_options ≡ ok toy_client
unfolding new_client list_eq text
opens = refl

opens_http_only :
    new_client (λ url. ok (text "ftp:")) client_options
    ≡ throw (range_error (text "indexer URL must be http(s)"))
unfolding new_client list_eq text
opens_http_only = refl

one_failure : (q : Query) → Transient toy_client q 1 0 1
unfolding outcome
one_failure q = one_more 0 0 1 1 _ _ refl refl (none_yet 1)

answers : (q : Query) (n : ℕ) → outcome (toy_fetch q (suc n)).0 ≡ ended (ok (content_for q))
unfolding outcome body_outcome data_of
answers q n = refl

query-ended_example :
    query toy_client latest_block 0 ≡ (ok (some toy_block), 1, attempt_calls latest_block 1 2)
query-ended_example =
    query-ended toy_client latest_block 1 0 1 1 (toy_fetch latest_block 1).0 (ok (some toy_block))
      (one_failure latest_block) refl (answers latest_block 0) (omega arith)

query_bounded_example :
    (count : ℕ) × (count ≤ 3)
    × ((query toy_client latest_block 0).2 ≡ attempt_calls latest_block 1 count)
query_bounded_example = query_bounded toy_client latest_block 0

content_for-Answers : (q : Query) (s : ℕ) → Answers toy_client q (content_for q) s
content_for-Answers q zero = record {
  failures = 1;
  before = 1;
  after = 1;
  reply = (toy_fetch q 1).0;
  retried = one_failure q;
  fetched = refl;
  usable = answers q 0;
  within = omega arith;
}
content_for-Answers q (suc n) = record {
  failures = 0;
  before = suc n;
  after = suc n;
  reply = (toy_fetch q (suc n)).0;
  retried = none_yet (suc n);
  fetched = refl;
  usable = answers q n;
  within = omega arith;
}

-- Pages of one event.
abbrev toy_options : MiscOptions
toy_options = record { transaction_hash = none; page_size = some 1; max_events = none }

normal : normalize_hex (text "0A") (text "contract address") ≡ ok (text "0a")
unfolding normalize_hex without_prefix lower_case is_hex text
normal = refl

normal_hash : normalize_option none (text "transaction hash") ≡ ok none
unfolding normalize_option
normal_hash = refl

misc_events_example :
    (misc_events toy_client 3 (text "0A") toy_options 0).0
    ≡ ok (some (misc_of (toy_event ∷ toy_event ∷ [])))
unfolding misc_of list_eq text
misc_events_example =
    misc_events-collected toy_client 3 (text "0A") (text "0a") toy_options none
      (toy_event ∷ toy_event ∷ []) 0 normal normal_hash (omega arith) (omega arith) (omega arith)
      (λ offset s. content_for-Answers (contract_events (text "0a") none 1 offset) s)

abbrev toy_misc : IndexedMiscEvent
toy_misc = record {
  id = 3;
  name_hex = bytes_to_hex toy_name;
  payload_hex = bytes_to_hex (toy_part 2);
  raw_hex = text "07";
  transaction_hash = text "hash";
  block_height = none;
  block_hash = [];
}

abbrev toy_event_of : Bytes → Result LedgerEvent
toy_event_of bytes = ok (record {
  content = contract_log toy_contract (text "misc") (toy_value (toy_part 2));
  transaction_hash = text "hash";
  physical_segment = 5;
})

agrees :
    (part_events_from_indexer toy_event_of
      (record { network = text "net"; contract = toy_contract })
      (toy_misc ∷ [])).issues
    ≡ []
unfolding part_events_from_indexer convert_item raw_event convert_event event_issues hash_issues
    typed_issues typed_value hex_to_bytes digit_value decode_pairs restore_indexer_misc_event
    split_event_value restore_event_value event_value overwrite bytes_equal same_bytes
    part_events_from_ledger_events part_events_from convert_content convert_log includes
    decode_misc_value cell_atom atom_width only_atom bytes_to_hex hex_digit list_eq text
    is_hex_digit
agrees = refl

part_events_from_indexer_example :
    IsReadAs toy_event_of
      (record { network = text "net"; contract = toy_contract })
      (toy_misc ∷ [])
      (part_events_from_indexer toy_event_of
        (record { network = text "net"; contract = toy_contract })
        (toy_misc ∷ [])).events
part_events_from_indexer_example =
    part_events_from_indexer-IsReadAs toy_event_of
      (record { network = text "net"; contract = toy_contract }) (toy_misc ∷ []) agrees

abbrev toy_event_at : ℕ → PartEvent
toy_event_at position = record {
  network = text "net";
  contract = toy_contract;
  transaction_hash = text "hash";
  segment = 5;
  position = position;
  value = toy_name ++ toy_part position;
}

abbrev toy_read_options : ReadOptions
toy_read_options = record {
  opt_ins = record { contract = toy_contract; name = Name.of_bytes toy_name } ∷ [];
  network = none;
  limits = none;
}

abbrev count_read : Result ReadOutput → Option ℕ
count_read (ok out) = some (length out.packages)
count_read (throw e) = none

one_package :
    count_read (read_packages (toy_event_at 4 ∷ toy_event_at 2 ∷ []) toy_read_options) ≡ some 1
unfolding read_packages collect_names delivery_of name_of candidates_for group_for deliver
    read_event read_events prepare is_address validate_reader_limits check_event group_key
    survey_value survey_delivery survey part_at package_of evaluate event_name restore_event_value
    same_bytes bytes_equal hex_digit bytes_to_hex list_eq sort text decimal escape_unit escape quote
    stringify overwrite
one_package = refl

count_read-ok : (r : Result ReadOutput) → count_read r ≡ some 1 → (out : ReadOutput) × (r ≡ ok out)
count_read-ok (ok out) h = (out, refl)
count_read-ok (throw e) h = cc

read_packages_example :
    IsReadOutput
      (toy_event_at 4 ∷ toy_event_at 2 ∷ [])
      toy_read_options
      (count_read-ok _ one_package).0
read_packages_example =
    read_packages-IsReadOutput (toy_event_at 4 ∷ toy_event_at 2 ∷ []) toy_read_options
      (count_read-ok _ one_package).0 (count_read-ok _ one_package).1

toy_forward : (q : Query) (s : ℕ) → s ≤ (toy_fetch q s).1
toy_forward q zero = omega arith
toy_forward q (suc n) = omega arith

abbrev toy_wait : WaitOptions
toy_wait = record { timeout_ms = some 10; poll_ms = some 5 }

-- The state is the clock, in milliseconds.
wait_for_transaction_example :
    (wait_for_transaction toy_client
      (λ s. s)
      (λ ms s. s + ms)
      3
      (record { identifiers = none; hash = some (text "0a") })
      toy_wait
      0).0
    ≢ ok none
wait_for_transaction_example =
    wait_for_transaction-ends toy_client (λ s. s) toy_forward (λ ms s. s + ms) (λ ms s. omega arith)
      3 (record { identifiers = none; hash = some (text "0a") }) toy_wait 0 (omega arith)
      (omega arith)
