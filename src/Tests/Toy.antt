-- ===== src/Tests/Toy.antt =====
-- A small ledger, runtime and package, for the tests.
use compact_multi_part_event.Prelude.{
  ℕ, ◌+◌, false, none, some, List, [], ◌∷◌, ◌++◌, Text, Bytes, text, nat_eq, list_eq, replicate,
  if◌then◌else◌, ok, throw, range_error,
}
use compact_multi_part_event.Bytes.{bytes_to_hex}
use compact_multi_part_event.Compose.Runtime.{Assembly}
use compact_multi_part_event.Dates.{date_at, date_text}
use compact_multi_part_event.Finalize.{
  BuiltTransaction, FinalizeOptions, FinalizedRecord, Providers, transaction,
}
use compact_multi_part_event.Guard.{ExpectedPackage}
use compact_multi_part_event.Ledger.{
  bytes_atom, StateValue, cell, array, nil, cons, Op, log, push, EntryPoint, Action, contract_call,
  Intent, Ledger,
}

-- 64 zeros.
abbrev pub toy_contract : Text
toy_contract = replicate 64 48

abbrev pub toy_name : Bytes
toy_name = replicate 32 1

-- The part that is filled with a byte.
abbrev pub toy_part : ℕ → Bytes
toy_part n = replicate 256 n

abbrev pub toy_value : Bytes → StateValue
toy_value part = cell (bytes_atom 288 ∷ []) ((toy_name ++ part) ∷ [])

-- A transcript is the byte that its part is filled with.
abbrev pub toy_program : ℕ → List Op
toy_program n =
    push false (
      array (
        cons (cell (bytes_atom 1 ∷ []) ((1 ∷ []) ∷ []))
          (cons (cell (bytes_atom 1 ∷ []) ((10 ∷ []) ∷ [])) (cons (toy_value (toy_part n)) nil))))
    ∷ log
    ∷ []

abbrev pub toy_call : ℕ → Action ℕ
toy_call n = contract_call (record {
  address = toy_contract;
  entry_point = EntryPoint.of_text (text "emit");
  guaranteed_transcript = some n;
  fallible_transcript = none;
})

abbrev pub toy_intent : Intent ℕ
toy_intent = record {
  actions = toy_call 2 ∷ toy_call 3 ∷ [];
  has_guaranteed_unshielded_offer = false;
  has_fallible_unshielded_offer = false;
  has_dust_actions = false;
}

abbrev pub ToyTx : Type 0
ToyTx = List (ℕ × Intent ℕ)

abbrev pub toy_tx : ToyTx
toy_tx = (5, toy_intent) ∷ []

-- The byte 7 is the only transaction that can be read back.
abbrev pub toy_ledger : Ledger
toy_ledger = record {
  Transcript = ℕ;
  program = toy_program;
  same_transcript = nat_eq;
  Tx = ToyTx;
  intents = λ tx. tx;
  fallible_offers = λ tx. [];
  transaction_hash = λ tx. some (text "hash");
  deserialize = λ proofs binds bytes.
      if list_eq bytes (7 ∷ []) then ok toy_tx else throw (range_error (text "bytes"));
  serialize = λ tx. 7 ∷ [];
  identifiers = λ tx. text "id" ∷ [];
  intent_hash = λ intent segment. text "intent";
  Params = ℕ;
  Fraction = ℕ;
  whole = 1;
  exceeds = λ a b. false;
  fraction_text = λ a. [];
  fixed_text = λ a. [];
  normalized_cost = λ tx params. ok [];
}

abbrev pub toy_package : ExpectedPackage
toy_package = record {
  network = text "net";
  contract = toy_contract;
  entry_point = text "emit";
  name = toy_name;
  segment = 5;
  parts = toy_part 2 ∷ toy_part 3 ∷ [];
}

abbrev pub toy_built : BuiltTransaction toy_ledger
toy_built = record {
  built = toy_tx;
  packages = toy_package ∷ [];
  frozen_transcripts = (2 ∷ 3 ∷ []) ∷ [];
  block = record { hash = text "b"; height = 1; timestamp_seconds = 1 };
  ledger_parameters = 0;
  ttl = date_at 1000;
  assembly_attempts = 1 ∷ [];
}

-- Both providers answer with the transaction that they are given.
abbrev pub toy_providers : Providers toy_ledger
toy_providers = record {
  prove_tx = λ tx timeout. ok (transaction tx);
  balance_tx = λ tx ttl. ok (transaction tx);
}

abbrev pub toy_options : FinalizeOptions toy_ledger
toy_options = record { proof_timeout_ms = 1000; cost_check = none; require_proofs = none }

-- The ledger draws the seed as the segment, so that its first draw is segment 0.
abbrev pub toy_assembly : Assembly toy_ledger
toy_assembly = record {
  ProofData = Unit;
  RuntimeState = Unit;
  runtime_state = λ bytes. ok tt;
  LedgerState = Unit;
  ledger_state = λ bytes. ok tt;
  Operation = Unit;
  operation = λ state name. some tt;
  verifier_key = λ operation. 1 ∷ [];
  Private = Unit;
  Seed = ℕ;
  PreCall = Unit;
  pre_call = λ trace operation location seed. (tt, seed);
  empty_transaction = λ network seed. ([], seed);
  add_calls = λ tx calls params ttl seed. ok ((seed, toy_intent) ∷ tx, seed + 1);
  sha256 = λ bytes. [];
}

abbrev pub toy_record : FinalizedRecord
toy_record = record {
  network = text "net";
  transaction_hex = text "07";
  transaction_hash = some (text "hash");
  identifiers = text "id" ∷ [];
  packages =
      record {
        contract = toy_contract;
        entry_point = text "emit";
        name_hex = bytes_to_hex toy_name;
        segment = 5;
        parts_hex = bytes_to_hex (toy_part 2) ∷ bytes_to_hex (toy_part 3) ∷ [];
        intent_hash = text "intent";
      }
      ∷ [];
  ttl = date_text 1000;
  block_hash = text "b";
  block_height = 1;
}
