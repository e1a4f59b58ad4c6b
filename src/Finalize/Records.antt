-- ===== src/Finalize/Records.antt =====
-- src/publisher/finalize.ts: the public records, and the answers of providers.
use compact_multi_part_event.Prelude.{
  ℕ, Bool, true, false, ◌&&◌, Option, none, some, List, [], ◌∷◌, ◌++◌, Text, Bytes, text, ◌==◌,
  text_eq, Error, range_error, plain_error, package_check, public_data, key_mismatch, out_of_rounds,
  Result, ok, throw, ◌>>=◌,
}
use compact_multi_part_event.Bytes.{hex_to_bytes}
use compact_multi_part_event.Guard.{ExpectedPackage}

-- The `message` of an error.
unfoldable pub message_of : Error → Text
message_of (range_error m) = m
message_of (plain_error m) = m
message_of (package_check stage detail) = stage ++ text ": " ++ detail
message_of (public_data kind detail) = detail
message_of (key_mismatch m) = m
message_of out_of_rounds = []

-- What a provider that answers with no transaction has returned.
pub data Shape : Type 0 where
  serialized_bytes version_tagged : Shape
  type_name : Text → Shape

unfoldable pub shape_text : Shape → Text
shape_text serialized_bytes = text "serialized bytes"
shape_text version_tagged = text "a version-tagged payload"
shape_text (type_name name) = name

-- A provider's answer: a transaction of this process's ledger module, or something else.
pub data Answer (T : Type 0) : Type 0 where
  transaction : T → Answer T
  other : Shape → Answer T

-- `requireLedgerTransaction`.
unfoldable pub require_ledger_transaction : {T : Type 0} → Answer T → Text → Text → Result T
require_ledger_transaction (transaction tx) stage provider = ok tx
require_ledger_transaction (other shape) stage provider = throw (
    package_check stage (
      text "the "
      ++ provider
      ++ text " returned "
      ++ shape_text shape
      ++ text ", not a ledger-v9 transaction of this process; wrap the provider with an adapter"))

pub record PinnedBlock : Type 0 where
  pub hash : Text
  pub height : ℕ
  pub timestamp_seconds : ℕ

pub record PackageRecord : Type 0 where
  pub contract : Text
  pub entry_point : Text
  pub name_hex : Text
  pub segment : ℕ
  pub parts_hex : List Text
  pub intent_hash : Text

pub record FinalizedRecord : Type 0 where
  pub network : Text
  pub transaction_hex : Text
  pub transaction_hash : Option Text
  pub identifiers : List Text
  pub packages : List PackageRecord
  pub ttl : Text
  pub block_hash : Text
  pub block_height : ℕ

pub record RecordLocation : Type 0 where
  pub contains : Bool
  pub merged : Bool
  pub reason : Option Text

-- Strings compared place by place, for lists of one length.
unfoldable pub same_texts : List Text → List Text → Bool
same_texts [] [] = true
same_texts [] (t ∷ ts) = false
same_texts (s ∷ ss) [] = false
same_texts (s ∷ ss) (t ∷ ts) = s == t && same_texts ss ts

-- `===` on `string | null`.
unfoldable pub same_hash : Option Text → Option Text → Bool
same_hash none none = true
same_hash none (some t) = false
same_hash (some s) none = false
same_hash (some s) (some t) = s == t

-- `parts.map(hexToBytes)`.
unfoldable pub parts_from_hex : List Text → Result (List Bytes)
parts_from_hex [] = ok []
parts_from_hex (hex ∷ hexes) = do
  part ← hex_to_bytes hex
  parts ← parts_from_hex hexes
  ok (part ∷ parts)

unfoldable pub expected_package : Text → PackageRecord → Result ExpectedPackage
expected_package network pkg = do
  name ← hex_to_bytes pkg.name_hex
  parts ← parts_from_hex pkg.parts_hex
  ok (record {
    network = network;
    contract = pkg.contract;
    entry_point = pkg.entry_point;
    name = name;
    segment = pkg.segment;
    parts = parts;
  })

unfoldable pub expected_packages : Text → List PackageRecord → Result (List ExpectedPackage)
expected_packages network [] = ok []
expected_packages network (pkg ∷ packages) = do
  expected ← expected_package network pkg
  rest ← expected_packages network packages
  ok (expected ∷ rest)

unfoldable pub expected_from_record : FinalizedRecord → Result (List ExpectedPackage)
expected_from_record saved = expected_packages saved.network saved.packages

-- `packages[0]?.network ?? ""`.
abbrev pub first_network : List ExpectedPackage → Text
first_network [] = []
first_network (pkg ∷ packages) = pkg.network

abbrev pub or_some {ℓ} : {A : Type ℓ} → Option A → A → A
or_some none default = default
or_some (some a) default = a
