-- ===== src/Indexer/Query.antt =====
-- src/indexer/index.ts: one GraphQL query, with its retries. The indexer is an environment: a state,
-- and an answer to each request. What an answer decodes to is typed by the query, as in the source.
pub mod Retries
use compact_multi_part_event.Prelude.{
  ℕ, zero, suc, ◌+◌, ◌-◌, ◌*◌, ◌^◌, min, Bool, true, false, ◌&&◌, ◌||◌, Option, none, some, List,
  [], ◌∷◌, ◌++◌, Text, text, decimal, leb, ltb, nat_eq, if◌then◌else◌, ◌==◌, text_eq, range_error,
  Error, public_data, Result, ok, throw,
}
use compact_multi_part_event.Process.{Process, pure, fail, lift, call, ◌>>=◌, ◌>>◌}
use compact_multi_part_event.Finalize.{or_some}
use compact_multi_part_event.Indexer.Types.{RawBlock, RawTransaction, RawAction, RawEvent}

-- The queries, by their variables.
pub data Query : Type 0 where
  latest_block : Query
  block_by_hash : Text → Query
  block_by_height : ℕ → Query
  latest_action : (address : Text) → Query
  contract_at : (address : Text) → (block_hash : Text) → Query
  transactions_by_hash : Text → Query
  transactions_by_identifier : Text → Query
  contract_events :
      (address : Text) → (transaction_hash : Option Text) → (limit : ℕ) → (offset : ℕ) → Query

-- The type `T` of a query's data.
abbrev pub DataOf : Query → Type 0
DataOf latest_block = Option RawBlock
DataOf (block_by_hash hash) = Option RawBlock
DataOf (block_by_height height) = Option RawBlock
DataOf (latest_action address) = Option RawAction
DataOf (contract_at address block_hash) = Option Text × Option RawBlock
DataOf (transactions_by_hash hash) = List RawTransaction
DataOf (transactions_by_identifier identifier) = List RawTransaction
DataOf (contract_events address transaction_hash limit offset) = List RawEvent

-- The JSON body: the messages of its errors, and its data.
pub record Body (T : Type 0) : Type 0 where
  pub errors : List Text
  pub content : Option T

-- `fetch` throws, with a message, or answers with a status; reading the body may throw.
pub data Reply (T : Type 0) : Type 0 where
  failed : Text → Reply T
  answered : (status : ℕ) → Result (Body T) → Reply T

pub data Call : Type 0 where
  sleep : (ms : ℕ) → Call
  request : Query → Call
  node_request : (block_hash : Text) → Call

-- `fetch`, injected or global, posts a query to a URL under a timeout; it is the environment's.
pub record ClientOptions : Type 1 where
  pub State : Type 0
  pub url : Text
  pub fetch : (url : Text) → (timeout_ms : ℕ) → (q : Query) → State → Reply (DataOf q) × State
  pub timeout_ms : Option ℕ
  pub max_attempts : Option ℕ

-- `fetch` posts to the client's URL under its timeout.
pub record Client : Type 1 where
  pub State : Type 0
  pub url : Text
  pub fetch : (q : Query) → State → Reply (DataOf q) × State
  pub max_attempts : ℕ

-- The constructor; `new URL`, which may throw, gives the protocol of a URL.
unfoldable pub new_client : (protocol_of : Text → Result Text) → ClientOptions → Result Client
new_client protocol_of options = elim (protocol_of options.url) [
  | throw e ↦ throw e
  | ok protocol ↦
      if protocol == text "https:" || protocol == text "http:"
      then ok (record {
        State = options.State;
        url = options.url;
        fetch = options.fetch options.url (or_some options.timeout_ms 30000);
        max_attempts = or_some options.max_attempts 4;
      })
      else throw (range_error (text "indexer URL must be http(s)"))
]

-- `Math.min(10_000, 500 * 2 ** (attempt - 2))`, before the attempts from the second on.
unfoldable pub delay : ℕ → ℕ
delay attempt = min 10000 (500 * 2 ^ (attempt - 2))

-- `response.status === 429 || response.status >= 500`.
abbrev pub is_transient : ℕ → Bool
is_transient status = nat_eq status 429 || leb 500 status

-- `response.ok`.
abbrev pub is_ok : ℕ → Bool
is_ok status = leb 200 status && leb status 299

unfoldable pub http_error : ℕ → Error
http_error status = public_data (text "http") (text "indexer answered HTTP " ++ decimal status)

unfoldable pub network_error : Text → Error
network_error message = public_data (text "network") (text "indexer request failed: " ++ message)

-- `messages.join("; ")`.
unfoldable pub joined : List Text → Text
joined [] = []
joined (message ∷ []) = message
joined (message ∷ other ∷ messages) = message ++ (text "; " ++ joined (other ∷ messages))

unfoldable pub data_of : {T : Type 0} → Body T → Result T
data_of body = elim body.errors [
  | message ∷ messages ↦
      throw (public_data (text "graphql") (text "indexer error: " ++ joined (message ∷ messages)))
  | [] ↦ elim body.content [
    | none ↦ throw (public_data (text "shape") (text "indexer returned no data"))
    | some content ↦ ok content
  ]
]

-- What an attempt comes to: another attempt, with the error to remember, or the end.
pub data Outcome (T : Type 0) : Type 0 where
  again : Error → Outcome T
  ended : Result T → Outcome T

-- The body of a usable answer.
unfoldable pub body_outcome : {T : Type 0} → Result (Body T) → Outcome T
body_outcome (throw e) = ended (throw e)
body_outcome (ok body) = ended (data_of body)

unfoldable pub outcome : {T : Type 0} → Reply T → Outcome T
outcome (failed message) = again (network_error message)
outcome (answered status body) =
    if is_transient status
    then again (http_error status)
    else if is_ok status
    then body_outcome body
    else ended (throw (http_error status))

abbrev pub last_or_default : Option Error → Error
last_or_default none = public_data (text "network") (text "indexer request failed")
last_or_default (some e) = e

-- The sleep before an attempt.
abbrev pub sleeps : ℕ → List Call
sleeps attempt = if ltb 1 attempt then sleep (delay attempt) ∷ [] else []

module _ (C : Client) where
  open C use {State, fetch, max_attempts}

  -- The loop, at an attempt, with the attempts that are left.
  unfoldable pub query_attempts :
      (q : Query) → (attempt left : ℕ) → Option Error → Process State Call (DataOf q)
  query_attempts q attempt zero last s = (throw (last_or_default last), s, [])
  query_attempts q attempt (suc left) last s =
      let (reply, s') = fetch q s in
      elim (outcome reply) [
        | ended result ↦ (result, s', sleeps attempt ++ request q ∷ [])
        | again e ↦
            let (result, s'', calls) = query_attempts q (attempt + 1) left (some e) s' in
            (result, s'', (sleeps attempt ++ request q ∷ []) ++ calls)
      ]

  unfoldable pub query : (q : Query) → Process State Call (DataOf q)
  query q = query_attempts q 1 max_attempts none
