-- ===== src/Verification/Run/Reached.antt =====
-- The source's states during the verification of the entries in src/cli/verify.ts.
use compact_multi_part_event.Prelude.{
  Option, none, some, List, [], ◌∷◌, Text, Bytes, text_eq, inl, inr, Bool-cases, lookup,
  Option-cases, Dictionary, leb, nat_eq, ◌&&◌, Result,
}
use compact_multi_part_event.Ledger.{Ledger}
use compact_multi_part_event.Packages.{limits_or_default}
use compact_multi_part_event.Process.{lift}
use compact_multi_part_event.Verification.Checks.{package_check, fact_transaction, level_two_checks}
use compact_multi_part_event.Verification.Facts.{Survey, Fetched, fetch_transaction}
use compact_multi_part_event.Verification.Facts.Reached.{
  after_state, Stays, bind-Stays, fetch_transaction-Stays, survey_hashes-Stays,
}
use compact_multi_part_event.Verification.Levels.{Check, level_of}
use compact_multi_part_event.Verification.Records.{
  BlockRef, SourceEvents, VerifySource, VerifyRequest, Entry, TransactionFacts,
}
use compact_multi_part_event.Verification.Requests.{
  issues_of, or_block, block_of, or_listed, state_key,
}
use compact_multi_part_event.Verification.Run.{
  States, state_at, level_three_checks, verify_entry, fetch_requested, survey_entries,
}

module _ (sha256_hex : Bytes → Text) (operation_key : Bytes → Text → Result (Option Bytes))
    (L : Ledger) (V : VerifySource) (first : V.State) where
  open L use {Tx}

  pub state_at-Stays :
      (contract : Text) (states : States sha256_hex operation_key L V) (block : Option BlockRef)
      → Stays V first (state_at sha256_hex operation_key L V contract states block)
  unfolding state_at
  state_at-Stays contract states block s r = elim (Option-cases (lookup (state_key block) states)) [
    | inr (held, is) ↦ rw (state_at, is) r
    | inl absent ↦
        rw (state_at, absent)
          (bind-Stays V first (V.contract_state contract block) _
            (λ t q. after_state contract block q) (λ a t q. q) s r)
  ]

  pub level_three_checks-Stays :
      (request : VerifyRequest) (states : States sha256_hex operation_key L V)
      (block : Option BlockRef) (checks : List Check)
      → Stays V first (level_three_checks sha256_hex operation_key L V request states block checks)
  unfolding level_three_checks
  level_three_checks-Stays request states block checks s r =
      elim (Option-cases request.expected_verifier_key) [
        | inl absent ↦ rw (level_three_checks, absent) r
        | inr (expected, is) ↦
            elim (Bool-cases (leb 3 request.level && nat_eq (level_of checks 2) 2)) [
              | inr skipped ↦ rw (level_three_checks, is, skipped) r
              | inl taken ↦
                  rw (level_three_checks, is, taken)
                    (bind-Stays V first
                      (state_at sha256_hex operation_key L V request.target.contract states block) _
                      (state_at-Stays request.target.contract states block) (λ a t q. q) s r)
            ]
      ]

  pub verify_entry-Stays :
      (request : VerifyRequest) (fetched : SourceEvents)
      (facts : Dictionary Text (TransactionFacts Tx)) (states : States sha256_hex operation_key L V)
      (entry : Entry)
      → Stays V first (verify_entry sha256_hex operation_key L V request fetched facts states entry)
  unfolding verify_entry
  verify_entry-Stays request fetched facts states entry =
      let check =
        package_check sha256_hex entry (issues_of (lookup entry.transaction_hash fetched.issues)) in
      let fact = lookup entry.transaction_hash facts in
      let block =
        or_block (block_of (fact_transaction L fact))
          (lookup entry.transaction_hash fetched.blocks) in
      bind-Stays V first (lift (level_two_checks L request entry fact check)) _ (λ t q. q)
        (λ second.
          bind-Stays V first
            (level_three_checks sha256_hex operation_key L V request states block (check ∷ second))
            _ (level_three_checks-Stays request states block (check ∷ second)) (λ third t q. q))

  pub fetch_requested-Stays :
      (hash : Option Text) → Stays V first (fetch_requested sha256_hex operation_key L V hash)
  unfolding fetch_requested
  fetch_requested-Stays none = λ s r. r
  fetch_requested-Stays (some hash) =
      bind-Stays V first (fetch_transaction L V [] hash) _
        (fetch_transaction-Stays V first L [] hash) (λ found t q. q)

  pub survey_entries-Stays :
      (request : VerifyRequest) (name : Bytes) (entries : Dictionary Text Entry)
      (fetched : Fetched L V)
      → Stays V first (survey_entries sha256_hex operation_key L V request name entries fetched)
  unfolding survey_entries
  survey_entries-Stays request name entries fetched s r =
      let start : Survey L V = record { facts = []; entries = entries; transactions = fetched } in
      elim (Bool-cases (leb 2 request.level)) [
        | inl high ↦
            rw (survey_entries, high)
              (survey_hashes-Stays V first L request name (limits_or_default request.limits)
                (or_listed request.transaction_hash entries) start s r)
        | inr low ↦ rw (survey_entries, low) r
      ]
