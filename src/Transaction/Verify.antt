-- ===== src/Transaction/Verify.antt =====
-- src/reader/transaction.ts: the packages of a raw transaction with their placement, the inclusion
-- status and the transaction hash.
use compact_multi_part_event.Prelude.{
  Bool, true, false, not, ◌&&◌, Option, none, some, List, [], ◌∷◌, ◌++◌, map, Text, Bytes, text,
  if◌then◌else◌, ◌==◌, text_eq, select, plain_error, Result, ok, throw, ◌>>=◌,
}
use compact_multi_part_event.Ledger.{
  Proofs, proof, no_proof, pre_proof, Binding, binding, no_binding, pre_binding, Ledger,
}
use compact_multi_part_event.Packages.{
  ReaderLimits, Status, accepted, rejected, Package, ReadOutput, read_packages,
}
use compact_multi_part_event.Transaction.Events.{includes, part_events_from_transaction}
use compact_multi_part_event.Transaction.Placement.{PlacementTarget, check_placement}

abbrev pub included_statuses : List Text
included_statuses = text "SUCCESS" ∷ text "PARTIAL_SUCCESS" ∷ []

pub data LedgerResult : Type 0 where
  success partial_success failure : LedgerResult

unfoldable pub status_from_ledger_result : LedgerResult → Text
status_from_ledger_result success = text "SUCCESS"
status_from_ledger_result partial_success = text "PARTIAL_SUCCESS"
status_from_ledger_result failure = text "FAILURE"

abbrev pub deserialize_markers : List (Proofs × Binding)
deserialize_markers =
    (proof, binding)
    ∷ (no_proof, no_binding)
    ∷ (proof, pre_binding)
    ∷ (pre_proof, pre_binding)
    ∷ (pre_proof, binding)
    ∷ []

pub record VerifyTransactionOptions : Type 0 where
  pub target : PlacementTarget
  pub network : Text
  pub status : Text
  pub transaction_hash : Option Text
  pub limits : Option ReaderLimits

pub record CheckedPackage : Type 0 where
  pub package_read : Package
  pub placement : List Text

pub record TransactionVerification : Type 0 where
  pub transaction_hash : Text
  pub status : Text
  pub issues : List Text
  pub read : ReadOutput
  pub packages : List CheckedPackage
  pub verified : List Package

abbrev pub hash_or : Option Text → Option Text → Text
hash_or (some own) reported = own
hash_or none (some reported) = reported
hash_or none none = []

abbrev pub is_empty {ℓ} : {A : Type ℓ} → List A → Bool
is_empty [] = true
is_empty (x ∷ xs) = false

abbrev pub hashes_differ : Option Text → Option Text → Bool
hashes_differ (some own) (some reported) = not (reported == own)
hashes_differ (some own) none = false
hashes_differ none reported = false

-- The transaction-level problems, in the order in which they are pushed.
unfoldable pub transaction_issues : Option Text → Option Text → Text → List Text
transaction_issues own reported status =
    (if is_empty (hash_or own reported)
      then text "no transaction hash: the bytes are not proven and bound, and none was reported"
        ∷ []
      else [])
    ++ (if hashes_differ own reported
        then text "reported transaction hash differs from the bytes' hash" ∷ []
        else [])
    ++ (if includes included_statuses status
        then []
        else (text "status " ++ status ++ text " is not an inclusion (SUCCESS or PARTIAL_SUCCESS)")
          ∷ [])

abbrev pub is_accepted : Status → Bool
is_accepted accepted = true
is_accepted rejected = false

unfoldable pub verified_packages : List Text → List CheckedPackage → List Package
verified_packages issues packages =
    if is_empty issues
    then map (λ entry. entry.package_read)
        (select (λ entry. is_accepted entry.package_read.status && is_empty entry.placement)
          packages)
    else []

module _ (L : Ledger) where
  open L use {Tx, transaction_hash, deserialize}

  -- The loop over the forms: the first that deserializes.
  unfoldable pub deserialize_first : List (Proofs × Binding) → Bytes → Result Tx
  deserialize_first [] raw = throw (plain_error (text "bytes are not a ledger-v9 transaction"))
  deserialize_first ((proofs, bound) ∷ markers) raw = elim (deserialize proofs bound raw) [
    | ok tx ↦ ok tx
    | throw e ↦ deserialize_first markers raw
  ]

  unfoldable pub deserialize_transaction : Bytes → Result Tx
  deserialize_transaction raw = deserialize_first deserialize_markers raw

  -- `read.packages.map`.
  unfoldable pub check_packages : Tx → PlacementTarget → List Package → Result (List CheckedPackage)
  check_packages tx target [] = ok []
  check_packages tx target (pkg ∷ packages) = do
    placement ← check_placement L tx target pkg.scope.segment pkg.parts
    checked ← check_packages tx target packages
    ok (record { package_read = pkg; placement = placement } ∷ checked)

  -- For a deserialized transaction.
  unfoldable pub verify_transaction : Tx → VerifyTransactionOptions → Result TransactionVerification
  verify_transaction tx options = do
    let own = transaction_hash tx
    let hash = hash_or own options.transaction_hash
    let issues = transaction_issues own options.transaction_hash options.status
    let extracted = part_events_from_transaction L tx (record {
      network = options.network;
      contract = options.target.contract;
      transaction_hash = if is_empty hash then text "unknown" else hash;
    })
    read ← read_packages extracted.events (record {
      opt_ins = record { contract = options.target.contract; name = options.target.name } ∷ [];
      network = none;
      limits = options.limits;
    })
    packages ← check_packages tx options.target read.packages
    ok (record {
      transaction_hash = hash;
      status = options.status;
      issues = issues;
      read = read;
      packages = packages;
      verified = verified_packages issues packages;
    })

  -- For the raw bytes.
  unfoldable pub verify_transaction_bytes :
      Bytes → VerifyTransactionOptions → Result TransactionVerification
  verify_transaction_bytes raw options = do
    tx ← deserialize_transaction raw
    verify_transaction tx options
