-- ===== src/Verification/Facts.antt =====
-- src/cli/verify.ts: the checks of one transaction for Level 2, and the packages that only its raw
-- bytes show.
pub mod Surveyed
pub mod Reached
pub mod Entries
use compact_multi_part_event.Prelude.{
  ℕ, Bool, true, false, not, Option, none, some, List, [], ◌∷◌, ◌++◌, map, Text, Bytes, text,
  decimal, if◌then◌else◌, ◌==◌, text_eq, nat_eq, select, Dictionary, lookup, store, Error, Result,
  ok, throw,
}
use compact_multi_part_event.Event.{Name}
use compact_multi_part_event.Ledger.{Ledger}
use compact_multi_part_event.Packages.{Package, PartEvent, ReaderLimits, ReadOutput, read_packages}
use compact_multi_part_event.Process.{Process, pure, lift, ◌>>=◌}
use compact_multi_part_event.Transaction.{
  is_empty, includes, included_statuses, deserialize_transaction, part_events_from_transaction,
}
use compact_multi_part_event.Verification.Levels.{Check}
use compact_multi_part_event.Verification.Records.{
  VerifyTarget, BlockRef, SourceTransaction, VerifySource, VerifyRequest, Entry, TransactionFacts,
}

abbrev pub passing : ℕ → Text → Check
passing level message = record { level = level; passed = true; message = message }

abbrev pub failing : ℕ → Text → Check
failing level message = record { level = level; passed = false; message = message }

abbrev pub or_text : Text → Text → Text
or_text s fallback = if is_empty s then fallback else s

unfoldable pub status_check : Text → Check
status_check status =
    if includes included_statuses status
    then passing 2 (text "included, status " ++ status)
    else failing 2 (
        text "status "
        ++ or_text status (text "(none)")
        ++ text " is not an inclusion (SUCCESS or PARTIAL_SUCCESS)")

unfoldable pub hash_check : Option Text → Text → Check
hash_check none hash = passing 2 (
    text
      "the raw bytes carry no hash of their own (not proven and bound); the reported hash is used")
hash_check (some own) hash =
    if own == hash
    then passing 2 (text "the raw bytes hash to the transaction")
    else failing 2 (text "the raw bytes hash to " ++ own ++ text ", not to the reported " ++ hash)

-- The node's answer for a block.
unfoldable pub holding_check : BlockRef → Option ℕ → Check
holding_check block none = failing 2 (
    text "the node's block "
    ++ decimal block.height
    ++ text " ("
    ++ block.hash
    ++ text ") does not hold these bytes")
holding_check block (some index) = passing 2 (
    text "the node's block "
    ++ decimal block.height
    ++ text " holds the raw bytes (extrinsic "
    ++ decimal index
    ++ text ")")

unfoldable pub entry_key : Text → ℕ → Text
entry_key transaction_hash segment = transaction_hash ++ text "#" ++ decimal segment

-- `optIns: [{ contract, name }], network, limits`.
unfoldable pub read_target :
    VerifyTarget → Bytes → ReaderLimits → List PartEvent → Result ReadOutput
read_target target name limits events = read_packages events (record {
  opt_ins = record { contract = target.contract; name = Name.of_bytes name } ∷ [];
  network = some target.network;
  limits = some limits;
})

abbrev pub is_segment : Option ℕ → ℕ → Bool
is_segment none segment = true
is_segment (some wanted) segment = nat_eq segment wanted

-- `inScope`.
abbrev pub in_scope : Option ℕ → List Package → List Package
in_scope wanted packages = select (λ pkg. is_segment wanted pkg.scope.segment) packages

-- The entries of the packages that the events show.
unfoldable pub add_entries : Dictionary Text Entry → List Package → Dictionary Text Entry
add_entries entries [] = entries
add_entries entries (pkg ∷ packages) =
    add_entries
      (store (entry_key pkg.scope.transaction_hash pkg.scope.segment)
        (record {
          transaction_hash = pkg.scope.transaction_hash;
          segment = pkg.scope.segment;
          from_events = some pkg;
          raw_only = none;
        })
        entries)
      packages

abbrev pub raw_entry : Text → Package → Entry
raw_entry hash pkg = record {
  transaction_hash = hash;
  segment = pkg.scope.segment;
  from_events = none;
  raw_only = some pkg;
}

-- A raw package whose key no entry has.
unfoldable pub add_raw_entry : Text → Dictionary Text Entry → Package → Dictionary Text Entry
add_raw_entry hash entries pkg = elim (lookup (entry_key hash pkg.scope.segment) entries) [
  | some entry ↦ entries
  | none ↦ store (entry_key hash pkg.scope.segment) (raw_entry hash pkg) entries
]

unfoldable pub add_raw_entries : Text → Dictionary Text Entry → List Package → Dictionary Text Entry
add_raw_entries hash entries [] = entries
add_raw_entries hash entries (pkg ∷ packages) =
    add_raw_entries hash (add_raw_entry hash entries pkg) packages

module _ (L : Ledger) (V : VerifySource) where
  open L use {Tx}
  open V use {State, Call, transaction, node_holds}

  -- The map `transactions`, which `fetchTransaction` fills.
  abbrev pub Fetched : Type 0
  Fetched = Dictionary Text (Option SourceTransaction)

  unfoldable pub fetch_transaction :
      Fetched → Text → Process State Call (Option SourceTransaction × Fetched)
  fetch_transaction fetched hash = elim (lookup hash fetched) [
    | some found ↦ pure (found, fetched)
    | none ↦ do found ← transaction hash; pure (found, store hash found fetched)
  ]

  -- The node check, where it is asked for.
  unfoldable pub node_checks : Bool → SourceTransaction → Process State Call (List Check)
  node_checks false tx = pure []
  node_checks true tx = elim node_holds [
    | none ↦ pure (failing 2 (text "no node to cross-check against") ∷ [])
    | some holds ↦ elim tx.block [
      | none ↦ pure (failing 2 (text "the node cross-check needs the transaction's block") ∷ [])
      | some block ↦ do index ← holds block.hash tx.raw; pure (holding_check block index ∷ [])
    ]
  ]

  unfoldable pub transaction_checks :
      Bool → Text → SourceTransaction → Tx → Process State Call (List Check)
  transaction_checks cross_check hash tx decoded = do
    node ← node_checks cross_check tx
    pure (status_check tx.status ∷ hash_check (L.transaction_hash decoded) hash ∷ node)

  abbrev pub missing_fact : TransactionFacts Tx
  missing_fact = record {
    transaction = none;
    decoded = none;
    checks = failing 2 (text "the source does not have the transaction") ∷ [];
  }

  abbrev pub undecoded_fact : SourceTransaction → TransactionFacts Tx
  undecoded_fact tx = record {
    transaction = some tx;
    decoded = none;
    checks = failing 2 (text "the raw bytes are not a ledger-v9 transaction") ∷ [];
  }

  -- The packages that the raw bytes show.
  unfoldable pub raw_packages : VerifyTarget → Bytes → ReaderLimits → Text → Tx → Result ReadOutput
  raw_packages target name limits hash decoded =
      read_target target name limits
        (part_events_from_transaction L decoded (record {
          network = target.network;
          contract = target.contract;
          transaction_hash = hash;
        })).events

  -- The maps of the loop over the hashes: `facts`, `entries` and `transactions`.
  pub record Survey : Type 0 where
    pub facts : Dictionary Text (TransactionFacts Tx)
    pub entries : Dictionary Text Entry
    pub transactions : Fetched

  module _ (request : VerifyRequest) (name : Bytes) (limits : ReaderLimits) where
    -- One round of the loop, for the transaction that was fetched.
    unfoldable pub survey_found :
        Text → Survey → Option SourceTransaction → Process State Call Survey
    survey_found hash survey none = pure (record {
      facts = store hash missing_fact survey.facts;
      entries = survey.entries;
      transactions = survey.transactions;
    })
    survey_found hash survey (some tx) = elim (deserialize_transaction L tx.raw) [
      | throw e ↦ pure (record {
        facts = store hash (undecoded_fact tx) survey.facts;
        entries = survey.entries;
        transactions = survey.transactions;
      })
      | ok decoded ↦ do
        checks ← transaction_checks request.cross_check_node hash tx decoded
        read ← lift (raw_packages request.target name limits hash decoded)
        pure (record {
          facts =
              store hash (record { transaction = some tx; decoded = some decoded; checks = checks })
                survey.facts;
          entries = add_raw_entries hash survey.entries (in_scope request.segment read.packages);
          transactions = survey.transactions;
        })
    ]

    unfoldable pub survey_hashes : Survey → List Text → Process State Call Survey
    survey_hashes survey [] = pure survey
    survey_hashes survey (hash ∷ hashes) = do
      (found, transactions) ← fetch_transaction survey.transactions hash
      next ←
          survey_found hash
            (record { facts = survey.facts; entries = survey.entries; transactions = transactions })
            found
      survey_hashes next hashes
