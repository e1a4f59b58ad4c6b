-- ===== src/Compose/Config.antt =====
-- src/publisher/compose.ts: the configuration, and the checks before any state query.
use compact_multi_part_event.Prelude.{
  ℕ, ◌+◌, Bool, not, ◌&&◌, ◌||◌, Option, List, [], ◌∷◌, ◌++◌, Text, Bytes, text, decimal, nat_eq,
  leb, length, every, range_error, Result, ok, guard, ◌>>=◌, ◌>>◌,
}
use compact_multi_part_event.Event.{Name, event_name}
use compact_multi_part_event.Finalize.{or_some}
use compact_multi_part_event.Packages.{is_address, max_safe_integer}
use compact_multi_part_event.Parts.{part_length}

abbrev pub default_max_parts : ℕ
default_max_parts = 8

abbrev pub max_parts_ceiling : ℕ
max_parts_ceiling = 1024

abbrev pub max_packages : ℕ
max_packages = 16

abbrev pub default_ttl_seconds : ℕ
default_ttl_seconds = 1200

abbrev pub default_max_ttl_seconds : ℕ
default_max_ttl_seconds = 3600

abbrev pub default_max_assembly_attempts : ℕ
default_max_assembly_attempts = 8

pub record KeyLocationInput : Type 0 where
  pub address : Text
  pub entry_point : Text
  pub verifier_key : Bytes

abbrev pub KeyLocationResolver : Type 0
KeyLocationResolver = KeyLocationInput → Result Text

-- `/[/?]/.test(text)`, negated.
abbrev pub is_plain : Text → Bool
is_plain s = every (λ c. not (nat_eq c 47 || nat_eq c 63)) s

-- The hash is the one of `node:crypto`, in hex.
unfoldable pub canonical_key_location : (sha256 : Bytes → Text) → KeyLocationResolver
canonical_key_location sha256 input = do
  guard (is_address input.address)
      (range_error (text "key location: address must be 64 lowercase hex characters"))
  guard (not (nat_eq (length input.entry_point) 0) && is_plain input.entry_point)
      (range_error (text "key location: entry point must be non-empty without '/' or '?'"))
  ok (
      text "contract:"
      ++ input.address
      ++ text "/"
      ++ input.entry_point
      ++ text "?vk="
      ++ sha256 input.verifier_key)

pub record PublisherConfig : Type 0 where
  pub network : Text
  pub coin_public_key : Text
  pub max_parts : Option ℕ
  pub ttl_seconds : Option ℕ
  pub max_ttl_seconds : Option ℕ
  pub max_assembly_attempts : Option ℕ
  pub key_location : Option KeyLocationResolver

pub record ResolvedConfig : Type 0 where
  pub network : Text
  pub coin_public_key : Text
  pub max_parts : ℕ
  pub ttl_seconds : ℕ
  pub max_assembly_attempts : ℕ
  pub key_location : KeyLocationResolver

unfoldable pub positive_integer : ℕ → Text → ℕ → Result ℕ
positive_integer value name most = do
  guard (leb value max_safe_integer && (leb 1 value && leb value most))
      (range_error (name ++ text " must be an integer from 1 through " ++ decimal most))
  ok value

unfoldable pub resolve_publisher_config :
    (sha256 : Bytes → Text) → PublisherConfig → Result ResolvedConfig
resolve_publisher_config sha256 config = do
  guard (not (nat_eq (length config.network) 0)) (range_error (text "network must be non-empty"))
  guard (not (nat_eq (length config.coin_public_key) 0))
      (range_error (text "coinPublicKey must be non-empty"))
  max_ttl ←
      positive_integer (or_some config.max_ttl_seconds default_max_ttl_seconds)
        (text "maxTtlSeconds") max_safe_integer
  parts ←
      positive_integer (or_some config.max_parts default_max_parts) (text "maxParts")
        max_parts_ceiling
  ttl ←
      positive_integer (or_some config.ttl_seconds default_ttl_seconds) (text "ttlSeconds") max_ttl
  attempts ←
      positive_integer (or_some config.max_assembly_attempts default_max_assembly_attempts)
        (text "maxAssemblyAttempts") 64
  ok (record {
    network = config.network;
    coin_public_key = config.coin_public_key;
    max_parts = parts;
    ttl_seconds = ttl;
    max_assembly_attempts = attempts;
    key_location = or_some config.key_location (canonical_key_location sha256);
  })

-- The callback of `request.parts.forEach`.
unfoldable pub check_widths : Text → ℕ → List Bytes → Result (Unit {0})
check_widths label index [] = ok tt
check_widths label index (part ∷ parts) = do
  guard (nat_eq (length part) part_length) (
      range_error (
        label
        ++ text ": part "
        ++ decimal (index + 1)
        ++ text " is "
        ++ decimal (length part)
        ++ text " bytes, not 256"))
  check_widths label (index + 1) parts

-- `preflightPackage`, on the fields of the request that it reads.
unfoldable pub preflight_package :
    (contract : Text) → (entry_point : Text) → Name → List Bytes → ℕ → Text → Result Bytes
preflight_package contract entry_point name parts max_parts label = do
  guard (is_address contract)
      (range_error (label ++ text ": contract must be 64 lowercase hex characters"))
  guard (not (nat_eq (length entry_point) 0))
      (range_error (label ++ text ": the binding has no entry point"))
  encoded ← event_name name
  guard (leb 1 (length parts) && leb (length parts) max_parts) (
      range_error (
        label
        ++ text " has "
        ++ decimal (length parts)
        ++ text " parts; the configured limit is 1.."
        ++ decimal max_parts))
  check_widths label 0 parts
  ok encoded
