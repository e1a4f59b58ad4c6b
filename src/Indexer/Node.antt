-- ===== src/Indexer/Node.antt =====
-- src/indexer/index.ts: the node's answer whether a block's extrinsics hold a transaction's bytes.
-- The node is an environment, like the indexer.
use compact_multi_part_event.Prelude.{
  ℕ, ◌+◌, Bool, ◌||◌, Option, none, some, List, [], ◌∷◌, ◌++◌, Text, text, decimal, starts_with,
  if◌then◌else◌, Error, public_data, Result, ok, throw,
}
use compact_multi_part_event.Finalize.{message_of}
use compact_multi_part_event.Indexer.Query.{Call, node_request, is_ok}
use compact_multi_part_event.Indexer.Types.{normalize_hex, lower_case}
use compact_multi_part_event.Process.{Process, fail, lift, call, ◌>>=◌}

-- The JSON body: the error's message, and the block's extrinsics.
pub record NodeBody : Type 0 where
  pub error : Option Text
  pub extrinsics : Option (List Text)

pub data NodeReply : Type 0 where
  failed : Text → NodeReply
  answered : (status : ℕ) → Result NodeBody → NodeReply

-- `s.includes(needle)`.
unfoldable pub contains : Text → Text → Bool
contains [] needle = starts_with [] needle
contains (c ∷ s) needle = starts_with (c ∷ s) needle || contains s needle

-- `findIndex` from an index on, `none` where the source has -1.
unfoldable pub extrinsic_index : Text → ℕ → List Text → Option ℕ
extrinsic_index needle index [] = none
extrinsic_index needle index (extrinsic ∷ extrinsics) =
    if contains (lower_case extrinsic) needle
    then some index
    else extrinsic_index needle (index + 1) extrinsics

unfoldable pub node_failed : Text → Error
node_failed message = public_data (text "network") (text "node request failed: " ++ message)

unfoldable pub node_status : ℕ → Error
node_status status = public_data (text "http") (text "node answered HTTP " ++ decimal status)

-- What the code makes of a body.
unfoldable pub body_extrinsics : NodeBody → Result (List Text)
body_extrinsics body = elim body.error [
  | some message ↦ throw (public_data (text "graphql") message)
  | none ↦ elim body.extrinsics [
    | none ↦ throw (public_data (text "not-found") (text "node does not know the block"))
    | some extrinsics ↦ ok extrinsics
  ]
]

unfoldable pub reply_extrinsics : NodeReply → Result (List Text)
reply_extrinsics (failed message) = throw (node_failed message)
reply_extrinsics (answered status body) =
    if is_ok status
    then (elim body [ throw e ↦ throw e | ok content ↦ body_extrinsics content ])
    else throw (node_status status)

module _ {State : Type 0} (fetch : Text → State → NodeReply × State) where
  -- The request. An error of `normalizeHex` in its body is caught with those of `fetch`.
  unfoldable pub chain_block : Text → Process State Call NodeReply
  chain_block block_hash = elim (normalize_hex block_hash (text "block hash")) [
    | throw e ↦ fail (node_failed (message_of e))
    | ok hex ↦ call (node_request hex) (fetch hex)
  ]

  unfoldable pub raw_transaction_in_block : Text → Text → Process State Call (Option ℕ)
  raw_transaction_in_block block_hash raw_hex = do
    reply ← chain_block block_hash
    extrinsics ← lift (reply_extrinsics reply)
    needle ← lift (normalize_hex raw_hex (text "raw transaction"))
    lift (ok (extrinsic_index needle 0 extrinsics))
