-- ===== src/Verification/Run/Reports.antt =====
-- What a package's report of src/cli/verify.ts stands for.
use compact_multi_part_event.Prelude.{
  ℕ, ◌≡◌, ◌≢◌, ◌≤◌, refl, sym, ap, ◌∙◌, subst, Option, some, ok_injective, List, [], ◌∷◌, ◌++◌,
  Text, Bytes, Bool-cases, Option-cases, inl, inr, ◌⊎◌, lookup, AreStored, store-AreStored, text_eq,
  leb, nat_eq, ◌&&◌, Result, ok, true, length, All,
}
use compact_multi_part_event.Bytes.{bytes_to_hex}
use compact_multi_part_event.Ledger.{Ledger}
use compact_multi_part_event.Packages.{
  Package, ReadOutput, accepted, merge_parts, limits_or_default,
}
use compact_multi_part_event.Packages.Positions.{Member}
use compact_multi_part_event.Verification.Facts.{is_segment, read_target}
use compact_multi_part_event.Process.{process-ok}
use compact_multi_part_event.Verification.Checks.{at_block, key_check}
use compact_multi_part_event.Verification.Checks.Evidence.{key_check-level, key_check-passed}
use compact_multi_part_event.Verification.Checks.Placed.{ArePassed, IsPlaced}
use compact_multi_part_event.Verification.Facts.Reached.{Reached}
use compact_multi_part_event.Verification.Facts.Surveyed.{AreOfLevelTwo}
use compact_multi_part_event.Verification.Keys.{deployed_verifier_key}
use compact_multi_part_event.Verification.Levels.{Check, level_of}
use compact_multi_part_event.Verification.Levels.Highest.{HasLevel}
use compact_multi_part_event.Verification.Records.{
  BlockRef, SourceEvents, VerifySource, VerifyRequest, PackageReport,
}
use compact_multi_part_event.Verification.Run.{States, state_at, level_three_checks}
use compact_multi_part_event.Verification.Requests.{state_key, issues_of, validate_request}

module _ (sha256_hex : Bytes → Text) (operation_key : Bytes → Text → Result (Option Bytes))
    (L : Ledger) (V : VerifySource) (start : V.State) where
  open L use {Tx}
  open V use {State}

  -- After calls from the first state, the source answered a block of the key with the
  -- contract's state.
  abbrev pub IsStateAt : Text → Text → Bytes → Type 0
  IsStateAt contract key bytes =
      (block : Option BlockRef) × (s : State) × Reached V start s
      × (state_key block ≡ key)
      × ((V.contract_state contract block s).0 ≡ ok (some bytes))

  abbrev pub AreStates : Text → States sha256_hex operation_key L V → Type 0
  AreStates contract =
      AreStored (λ key found. (bytes : Bytes) → found ≡ some bytes → IsStateAt contract key bytes)

  -- The contract's state at the report's block holds the expected key for the emitting circuit.
  pub record IsDeployed (request : VerifyRequest) (block : Option BlockRef) : Type 0 where
    pub expected : Bytes
    pub state : Bytes
    pub held : IsStateAt request.target.contract (state_key block) state
    pub configured : request.expected_verifier_key ≡ some expected
    pub deployed :
        deployed_verifier_key operation_key state request.target.entry_point ≡ ok (some expected)

  -- An accepted package of the events that were fetched, at the hash and the segment of its report,
  -- with all that the requested level asks for.
  pub record IsVerified (request : VerifyRequest) (fetched : SourceEvents) (packages : List Package)
      (report : PackageReport) : Type 0 where
    pub pkg : Package
    pub shown : Member pkg packages
    pub asked : is_segment request.segment pkg.scope.segment ≡ true
    pub hash : report.transaction_hash ≡ pkg.scope.transaction_hash
    pub segment : report.segment ≡ pkg.scope.segment
    pub is_accepted : pkg.status ≡ accepted
    pub converted : issues_of (lookup report.transaction_hash fetched.issues) ≡ []
    pub parts : report.parts ≡ length pkg.parts
    pub merged : pkg.payload ≡ some (merge_parts pkg.parts)
    pub payload : report.payload_hex ≡ some (bytes_to_hex (merge_parts pkg.parts))
    pub placed : 2 ≤ request.level → IsPlaced L V start request.target report.transaction_hash pkg
    pub deployed : 3 ≤ request.level → IsDeployed request report.block

  -- The reports of a run that exits with status 0.
  pub record AreVerified (request : VerifyRequest) (reports : List PackageReport) : Type 0 where
    pub name : Bytes
    pub valid : validate_request request ≡ ok name
    pub asked_in : State
    pub reached : Reached V start asked_in
    pub fetched : SourceEvents
    pub answered :
        (V.events request.target.contract request.transaction_hash asked_in).0 ≡ ok fetched
    pub read : ReadOutput
    pub reads :
        read_target request.target name (limits_or_default request.limits) fetched.events ≡ ok read
    pub some_reports : reports ≢ []
    pub each : All (IsVerified request fetched read.packages) reports

  state_at-IsStateAt :
      (contract : Text) (states : States sha256_hex operation_key L V) (block : Option BlockRef)
      (s : State) (out : Option Bytes × States sha256_hex operation_key L V)
      → Reached V start s
      → AreStates contract states
      → (state_at sha256_hex operation_key L V contract states block s).0 ≡ ok out
      → ((bytes : Bytes) → out.0 ≡ some bytes → IsStateAt contract (state_key block) bytes)
        × AreStates contract out.1
  unfolding state_at
  state_at-IsStateAt contract states block s out reached known h =
      elim (Option-cases (lookup (state_key block) states)) [
        | inr (held, is) ↦
            let done = ok_injective (rw (state_at, is) at h) in
            (
              (λ bytes e. known (state_key block) held is bytes (ap (λ x. x.0) done ∙ e)),
              subst (λ x. AreStates contract x.1) done known,
            )
        | inl absent ↦
            let (got, first, last) =
              process-ok (V.contract_state contract block) _ s (rw (state_at, absent) at h) in
            let done = ok_injective last in
            let fresh : (bytes : Bytes)
                → got ≡ some bytes
                → IsStateAt contract (state_key block) bytes =
              λ bytes e. (block, s, reached, refl, first ∙ ap ok e) in
            (
              (λ bytes e. fresh bytes (ap (λ x. x.0) done ∙ e)),
              subst (λ x. AreStates contract x.1) done
                  (store-AreStored _ (state_key block) got states fresh known),
            )
      ]

  -- The checks that Level 3 adds: none, or the one of the key.
  abbrev pub IsLevelThree : VerifyRequest → Option BlockRef → List Check → Type 0
  IsLevelThree request block third =
      (third ≡ [])
      ⊎ ((expected : Bytes) × (state : Option Bytes) × (request.expected_verifier_key
            ≡ some expected)
          × ((bytes : Bytes)
              → state ≡ some bytes
              → IsStateAt request.target.contract (state_key block) bytes)
          × (third
              ≡ key_check sha256_hex operation_key request.target.entry_point (at_block block)
                  expected state
                ∷ []))

  pub level_three_checks-cases :
      (request : VerifyRequest) (states : States sha256_hex operation_key L V)
      (block : Option BlockRef) (checks : List Check) (s : State)
      (out : List Check × States sha256_hex operation_key L V)
      → Reached V start s
      → AreStates request.target.contract states
      → (level_three_checks sha256_hex operation_key L V request states block checks s).0 ≡ ok out
      → IsLevelThree request block out.0 × AreStates request.target.contract out.1
  unfolding level_three_checks
  level_three_checks-cases request states block checks s out reached known h =
      elim (Option-cases request.expected_verifier_key) [
        | inl absent ↦ none_added (ok_injective (rw (level_three_checks, absent) at h))
        | inr (expected, is) ↦
            elim (Bool-cases (leb 3 request.level && nat_eq (level_of checks 2) 2)) [
              | inr skipped ↦ none_added (ok_injective (rw (level_three_checks, is, skipped) at h))
              | inl taken ↦
                  let (found, first, last) =
                    process-ok
                      (state_at sha256_hex operation_key L V request.target.contract states block) _
                      s (rw (level_three_checks, is, taken) at h) in
                  let (from, kept) =
                    state_at-IsStateAt request.target.contract states block s found reached known
                      first in
                  let done = ok_injective last in
                  (
                    inr (expected, found.0, is, from, sym (ap (λ x. x.0) done)),
                    subst (λ x. AreStates request.target.contract x.1) done kept,
                  )
            ]
      ]
    where
      none_added :
          ([], states) ≡ out
          → IsLevelThree request block out.0 × AreStates request.target.contract out.1
      none_added done = (
        inl (sym (ap (λ x. x.0) done)),
        subst (λ x. AreStates request.target.contract x.1) done known,
      )

  pub level_three-passed :
      (request : VerifyRequest) (block : Option BlockRef) (third : List Check)
      → IsLevelThree request block third
      → third ≢ []
      → ArePassed 3 third
      → IsDeployed request block
  level_three-passed request block third (inl empty) some_checks passed = absurd (some_checks empty)
  level_three-passed request block third (inr (expected, state, is, from, form)) some_checks
        passed =
      let (here, _) = subst (ArePassed 3) form passed in
      let (bytes, same, key) =
        key_check-passed sha256_hex operation_key _ _ expected state
          (here (key_check-level sha256_hex operation_key _ _ expected state)) in
      record {
        expected = expected;
        state = bytes;
        held = from bytes same;
        configured = is;
        deployed = key;
      }

  pub level_three-HasLevel :
      (request : VerifyRequest) (block : Option BlockRef) (third : List Check) (k : ℕ)
      → IsLevelThree request block third
      → HasLevel k third
      → k ≡ 3
  level_three-HasLevel request block third k (inl empty) has = absurd (subst (HasLevel k) empty has)
  level_three-HasLevel request block third k (inr (expected, state, is, from, form)) has =
      elim (subst (HasLevel k) form has) [
        | inl here ↦ sym here ∙ key_check-level sha256_hex operation_key _ _ expected state
        | inr later ↦ absurd later
      ]

  pub two-HasLevel :
      (k : ℕ) (second : List Check) → AreOfLevelTwo second → HasLevel k second → k ≡ 2
  two-HasLevel k [] two has = absurd has
  two-HasLevel k (c ∷ second) (p, two) (inl here) = sym here ∙ p
  two-HasLevel k (c ∷ second) (p, two) (inr later) = two-HasLevel k second two later

  pub HasLevel-split :
      (k : ℕ) (xs ys : List Check) → HasLevel k (xs ++ ys) → HasLevel k xs ⊎ HasLevel k ys
  HasLevel-split k [] ys h = inr h
  HasLevel-split k (x ∷ xs) ys (inl here) = inl (inl here)
  HasLevel-split k (x ∷ xs) ys (inr later) = elim (HasLevel-split k xs ys later) [
    | inl left ↦ inl (inr left)
    | inr right ↦ inr right
  ]
