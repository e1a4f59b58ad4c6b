-- ===== src/Verification/Keys.antt =====
-- src/cli/verifier-key.ts: verifier keys. The SHA-256 of node:crypto, as hex digits, and the key of
-- an operation of a serialized contract state, of the ledger library, are parameters.
use compact_multi_part_event.Prelude.{
  Bool, false, Option, none, some, ◌++◌, Text, Bytes, text, if◌then◌else◌, key_mismatch, Result, ok,
  guard, ◌>>=◌, nat_eq, length,
}
use compact_multi_part_event.Bytes.{bytes_equal}

pub record VerifierKeyComparison : Type 0 where
  pub equal : Bool
  pub deployed_sha256 : Option Text
  pub expected_sha256 : Text

-- An absent or empty key.
abbrev pub key_or_none : Option Bytes → Option Bytes
key_or_none none = none
key_or_none (some key) = if nat_eq (length key) 0 then none else some key

module _ (sha256_hex : Bytes → Text) where
  abbrev pub verifier_key_sha256 : Bytes → Text
  verifier_key_sha256 key = sha256_hex key

  unfoldable pub assert_verifier_key_equals : Bytes → Bytes → Text → Result (Unit {0})
  assert_verifier_key_equals actual expected label = guard (bytes_equal actual expected) (
      key_mismatch (
        label
        ++ text ": verifier key SHA-256 "
        ++ verifier_key_sha256 actual
        ++ text " differs from the expected "
        ++ verifier_key_sha256 expected))

  unfoldable pub compare_keys : Option Bytes → Bytes → VerifierKeyComparison
  compare_keys none expected = record {
    equal = false;
    deployed_sha256 = none;
    expected_sha256 = verifier_key_sha256 expected;
  }
  compare_keys (some deployed) expected = record {
    equal = bytes_equal deployed expected;
    deployed_sha256 = some (verifier_key_sha256 deployed);
    expected_sha256 = verifier_key_sha256 expected;
  }

module _ (operation_key : Bytes → Text → Result (Option Bytes)) where
  unfoldable pub deployed_verifier_key : Bytes → Text → Result (Option Bytes)
  deployed_verifier_key state entry_point = do
    key ← operation_key state entry_point
    ok (key_or_none key)

  unfoldable pub compare_deployed_verifier_key :
      (Bytes → Text) → Bytes → Text → Bytes → Result VerifierKeyComparison
  compare_deployed_verifier_key sha256_hex state entry_point expected = do
    deployed ← deployed_verifier_key state entry_point
    ok (compare_keys sha256_hex deployed expected)
