-- ===== src/Finalize/Checks.antt =====
-- src/publisher/finalize.ts: the checks of a transaction at each stage, the record that is saved,
-- and where a transaction stands relative to a record.
use compact_multi_part_event.Prelude.{
  ℕ, Bool, true, false, not, Option, none, some, List, [], ◌∷◌, ◌++◌, map, Text, Bytes, text,
  decimal, nat_eq, if◌then◌else◌, ◌==◌, text_eq, ℕ_eq, lookup, length, every, package_check, Result,
  ok, throw, guard, ◌>>=◌, ◌>>◌,
}
use compact_multi_part_event.Bytes.{bytes_to_hex, hex_to_bytes}
use compact_multi_part_event.Dates.{Date, iso_text}
use compact_multi_part_event.Finalize.Records.{
  message_of, Answer, require_ledger_transaction, PinnedBlock, PackageRecord, FinalizedRecord,
  RecordLocation, same_texts, same_hash, expected_from_record, first_network,
}
use compact_multi_part_event.Guard.{ExpectedPackage, assert_transaction_packages}
use compact_multi_part_event.Ledger.{proof, binding, Ledger}
use compact_multi_part_event.Transaction.{includes, deserialize_transaction}

module _ (L : Ledger) where
  open L use {
    Transcript, Tx, intents, transaction_hash, deserialize, serialize, identifiers, Params,
    Fraction, whole, exceeds, fraction_text, fixed_text, normalized_cost,
  }

  abbrev pub CostCheck : Type 0
  CostCheck = Tx → Params → Text → Result (Unit {0})

  -- The loop over the dimensions.
  unfoldable pub check_dimensions : Fraction → Text → List (Text × Fraction) → Result (Unit {0})
  check_dimensions most stage [] = ok tt
  check_dimensions most stage ((dimension, fraction) ∷ rest) =
      if exceeds fraction most
      then throw (
          package_check stage (
            dimension
            ++ text " uses "
            ++ fixed_text fraction
            ++ text " of a block (limit "
            ++ fraction_text most
            ++ text ")"))
      else check_dimensions most stage rest

  unfoldable pub block_fullness_check : Fraction → CostCheck
  block_fullness_check most tx params stage = elim (normalized_cost tx params) [
    | ok normalized ↦ check_dimensions most stage normalized
    | throw e ↦ throw (package_check stage (text "cost exceeds the block limits: " ++ message_of e))
  ]

  pub record BuiltTransaction : Type 0 where
    pub built : Tx
    pub packages : List ExpectedPackage
    pub frozen_transcripts : List (List Transcript)
    pub block : PinnedBlock
    pub ledger_parameters : Params
    pub ttl : Date
    pub assembly_attempts : List ℕ

  unfoldable pub deserialize_final : Bytes → Bool → Text → Result Tx
  deserialize_final bytes false stage = deserialize_transaction L bytes
  deserialize_final bytes true stage = elim (deserialize proof binding bytes) [
    | ok tx ↦ ok tx
    | throw e ↦
        throw
          (package_check stage (text "bytes are not a proven, bound transaction: " ++ message_of e))
  ]

  unfoldable pub intent_hash_at : Tx → ℕ → Text → Result Text
  intent_hash_at tx segment stage = elim (lookup segment (intents tx)) [
    | none ↦ throw (package_check stage (text "a package intent disappeared"))
    | some intent ↦ ok (L.intent_hash intent segment)
  ]

  -- The callback of `packages.map`.
  unfoldable pub package_record : Tx → ExpectedPackage → Result PackageRecord
  package_record tx pkg = do
    hash ← intent_hash_at tx pkg.segment (text "after serialization")
    ok (record {
      contract = pkg.contract;
      entry_point = pkg.entry_point;
      name_hex = bytes_to_hex pkg.name;
      segment = pkg.segment;
      parts_hex = map bytes_to_hex pkg.parts;
      intent_hash = hash;
    })

  unfoldable pub package_records : Tx → List ExpectedPackage → Result (List PackageRecord)
  package_records tx [] = ok []
  package_records tx (pkg ∷ packages) = do
    first ← package_record tx pkg
    rest ← package_records tx packages
    ok (first ∷ rest)

  -- The record of the bytes and of what they deserialize to.
  unfoldable pub record_of : BuiltTransaction → Bytes → Tx → Result FinalizedRecord
  record_of built bytes round_trip = do
    packages ← package_records round_trip built.packages
    ttl ← iso_text built.ttl
    ok (record {
      network = first_network built.packages;
      transaction_hex = bytes_to_hex bytes;
      transaction_hash = transaction_hash round_trip;
      identifiers = identifiers round_trip;
      packages = packages;
      ttl = ttl;
      block_hash = built.block.hash;
      block_height = built.block.height;
    })

  -- The package checks and the cost check of a provider's answer at one stage.
  unfoldable pub check_answer : CostCheck → BuiltTransaction → Answer Tx → Text → Text → Result Tx
  check_answer cost_check built answer stage provider = do
    tx ← require_ledger_transaction answer stage provider
    assert_transaction_packages L tx built.packages stage (some built.frozen_transcripts)
    cost_check tx built.ledger_parameters stage
    ok tx

  -- From the finalized transaction to its record.
  unfoldable pub save : Bool → BuiltTransaction → Tx → Result FinalizedRecord
  save require_proofs built finalized = do
    round_trip ← deserialize_final (serialize finalized) require_proofs (text "after serialization")
    assert_transaction_packages L round_trip built.packages (text "after serialization")
        (some built.frozen_transcripts)
    record_of built (serialize finalized) round_trip

  -- The loop over the recorded intent hashes.
  unfoldable pub check_intent_hashes : Tx → Text → List PackageRecord → Result (Unit {0})
  check_intent_hashes tx stage [] = ok tt
  check_intent_hashes tx stage (pkg ∷ packages) = do
    hash ← intent_hash_at tx pkg.segment stage
    guard (hash == pkg.intent_hash)
        (package_check stage (text "saved bytes do not match a recorded intent hash"))
    check_intent_hashes tx stage packages

  -- The checks of the saved bytes: the transaction to submit.
  unfoldable pub check_saved : FinalizedRecord → Bool → Text → Result Tx
  check_saved saved require_proofs stage = do
    bytes ← hex_to_bytes saved.transaction_hex
    snapshot ← deserialize_final bytes require_proofs stage
    expected ← expected_from_record saved
    assert_transaction_packages L snapshot expected stage none
    guard (same_hash (transaction_hash snapshot) saved.transaction_hash)
        (package_check stage (text "saved bytes do not match the recorded transaction hash"))
    guard (same_texts (identifiers snapshot) saved.identifiers)
        (package_check stage (text "saved bytes do not match the recorded identifiers"))
    check_intent_hashes snapshot stage saved.packages
    ok snapshot

  abbrev pub missing : Text → RecordLocation
  missing reason = record { contains = false; merged = false; reason = some reason }

  -- The loop over the packages: the segment of the first whose intent differs.
  unfoldable pub differing_intent : Tx → List PackageRecord → Option ℕ
  differing_intent tx [] = none
  differing_intent tx (pkg ∷ packages) = elim (lookup pkg.segment (intents tx)) [
    | none ↦ some pkg.segment
    | some intent ↦
        if L.intent_hash intent pkg.segment == pkg.intent_hash
        then differing_intent tx packages
        else some pkg.segment
  ]

  -- Whether others merged intents into the transaction: by hash, else by identifiers.
  unfoldable pub is_merged : Tx → FinalizedRecord → Bool
  is_merged tx saved = elim (transaction_hash tx) [
    | none ↦ not (nat_eq (length (identifiers tx)) (length saved.identifiers))
    | some hash ↦ elim saved.transaction_hash [
      | none ↦ not (nat_eq (length (identifiers tx)) (length saved.identifiers))
      | some recorded ↦ not (hash == recorded)
    ]
  ]

  -- The package checks in their `try`.
  unfoldable pub locate_checked : Tx → FinalizedRecord → Result (Unit {0})
  locate_checked tx saved = do
    expected ← expected_from_record saved
    assert_transaction_packages L tx expected (text "locate") none

  unfoldable pub locate_record : Tx → FinalizedRecord → RecordLocation
  locate_record tx saved =
      if every (includes (identifiers tx)) saved.identifiers
      then elim (differing_intent tx saved.packages) [
        | some segment ↦
            missing (text "the package intent at segment " ++ decimal segment ++ text " differs")
        | none ↦ elim (locate_checked tx saved) [
          | throw e ↦ missing (message_of e)
          | ok _ ↦ record { contains = true; merged = is_merged tx saved; reason = none }
        ]
      ]
      else missing (text "a recorded identifier is missing")
