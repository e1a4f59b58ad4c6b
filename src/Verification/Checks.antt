-- ===== src/Verification/Checks.antt =====
-- src/cli/verify.ts: the checks of one package.
pub mod Evidence
pub mod Placed
use compact_multi_part_event.Prelude.{
  ℕ, Bool, true, false, ◌&&◌, Option, none, some, List, [], ◌∷◌, ◌++◌, map, Text, Bytes, text,
  decimal, leb, nat_eq, length, every, if◌then◌else◌, Dictionary, lookup, store, text_eq, Result,
  ok, throw, ◌>>=◌,
}
use compact_multi_part_event.Bytes.{bytes_to_hex}
use compact_multi_part_event.Indexer.Query.{joined}
use compact_multi_part_event.Ledger.{Ledger}
use compact_multi_part_event.Packages.{Package}
use compact_multi_part_event.Process.{Process, pure, lift}
use compact_multi_part_event.Process
use compact_multi_part_event.Transaction.{is_empty, is_accepted, PlacementTarget, check_placement}
use compact_multi_part_event.Verification.Facts.{passing, failing}
use compact_multi_part_event.Verification.Keys.{
  VerifierKeyComparison, compare_deployed_verifier_key,
}
use compact_multi_part_event.Verification.Levels.{Check, level_of}
use compact_multi_part_event.Verification.Records.{
  VerifyTarget, BlockRef, SourceTransaction, VerifySource, VerifyRequest, PackageReport, Entry,
  TransactionFacts,
}

abbrev pub payload_or_empty : Option Bytes → Bytes
payload_or_empty none = []
payload_or_empty (some payload) = payload

abbrev pub parts_of : Option Package → ℕ
parts_of none = 0
parts_of (some pkg) = length pkg.parts

-- `pkg ?? entry.rawOnly`.
abbrev pub or_raw : Option Package → Option Package → Option Package
or_raw none raw = raw
or_raw (some pkg) raw = some pkg

module _ (sha256_hex : Bytes → Text) where
  -- The Level 1 check, with the conversion issues of the package's transaction.
  unfoldable pub package_check : Entry → List Text → Check
  package_check entry conversion = elim entry.from_events [
    | none ↦ failing 1 (
        text "the events lack this package: the raw transaction's intent logs "
        ++ decimal (parts_of entry.raw_only)
        ++ text " parts named N")
    | some pkg ↦
        if is_accepted pkg.status
        then (if is_empty conversion
            then passing 1 (
                decimal (length pkg.parts)
                ++ text " part(s), "
                ++ decimal (length (payload_or_empty pkg.payload))
                ++ text " bytes, payload SHA-256 "
                ++ sha256_hex (payload_or_empty pkg.payload))
            else failing 1 (
                text
                  "events of this transaction could not all be read (the package may be incomplete): "
                ++ joined conversion))
        else failing 1 (text "rejected: " ++ joined pkg.issues)
  ]

unfoldable pub placed_check : VerifyTarget → ℕ → ℕ → Check
placed_check target segment parts = passing 2 (
    text "every "
    ++ target.entry_point
    ++ text " call in the intent at segment "
    ++ decimal segment
    ++ text " is guaranteed-only and logs these "
    ++ decimal parts
    ++ text " part(s), in order")

unfoldable pub placement_checks : Check → List Text → List Check
placement_checks placed [] = placed ∷ []
placement_checks placed (issue ∷ issues) = map (failing 2) (issue ∷ issues)

-- ` at block <height>`.
unfoldable pub at_block : Option BlockRef → Text
at_block none = []
at_block (some block) = text " at block " ++ decimal block.height

-- The Level 3 check of a comparison.
unfoldable pub comparison_check : Text → Text → VerifierKeyComparison → Check
comparison_check entry_point place comparison = elim comparison.deployed_sha256 [
  | none ↦ failing 3 (text "the contract has no " ++ entry_point ++ text " verifier key" ++ place)
  | some deployed ↦
      if comparison.equal
      then passing 3 (
          text "the deployed "
          ++ entry_point
          ++ text " verifier key"
          ++ place
          ++ text " equals the expected one (SHA-256 "
          ++ deployed
          ++ text ")")
      else failing 3 (
          text "the deployed "
          ++ entry_point
          ++ text " verifier key"
          ++ place
          ++ text " (SHA-256 "
          ++ deployed
          ++ text ") differs from the expected one (SHA-256 "
          ++ comparison.expected_sha256
          ++ text ")")
]

module _ (sha256_hex : Bytes → Text) (operation_key : Bytes → Text → Result (Option Bytes)) where
  -- The Level 3 check of the contract's state.
  unfoldable pub key_check : Text → Text → Bytes → Option Bytes → Check
  key_check entry_point place expected none =
      failing 3 (text "the source has no state of the contract" ++ place)
  key_check entry_point place expected (some state) =
      elim (compare_deployed_verifier_key operation_key sha256_hex state entry_point expected) [
        | throw e ↦ failing 3 (text "the contract state does not decode")
        | ok comparison ↦ comparison_check entry_point place comparison
      ]

module _ (L : Ledger) where
  open L use {Tx}

  abbrev pub fact_checks : Option (TransactionFacts Tx) → List Check
  fact_checks none = []
  fact_checks (some fact) = fact.checks

  abbrev pub fact_decoded : Option (TransactionFacts Tx) → Option Tx
  fact_decoded none = none
  fact_decoded (some fact) = fact.decoded

  abbrev pub fact_transaction : Option (TransactionFacts Tx) → Option SourceTransaction
  fact_transaction none = none
  fact_transaction (some fact) = fact.transaction

  abbrev pub placement_target : VerifyTarget → PlacementTarget
  placement_target target = record {
    contract = target.contract;
    entry_point = target.entry_point;
    name = target.name;
  }

  -- The placement of a package in decoded bytes.
  unfoldable pub decoded_checks : VerifyTarget → ℕ → Package → Option Tx → Result (List Check)
  decoded_checks target segment pkg none = ok []
  decoded_checks target segment pkg (some decoded) = do
    placement ← check_placement L decoded (placement_target target) pkg.scope.segment pkg.parts
    ok (placement_checks (placed_check target segment (length pkg.parts)) placement)

  -- The checks that Level 2 adds.
  unfoldable pub level_two_checks :
      VerifyRequest → Entry → Option (TransactionFacts Tx) → Check → Result (List Check)
  level_two_checks request entry fact first = elim entry.from_events [
    | none ↦ ok []
    | some pkg ↦
        if leb 2 request.level && first.passed
        then (do
          placed ← decoded_checks request.target entry.segment pkg (fact_decoded fact)
          ok (fact_checks fact ++ placed))
        else ok []
  ]
