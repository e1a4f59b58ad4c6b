-- ===== src/Verification/Checks/Evidence.antt =====
-- What the checks of src/cli/verify.ts that passed stand for.
use compact_multi_part_event.Prelude.{
  ℕ, ◌≡◌, refl, sym, ap, ◌∙◌, Bool, true, false, Option, none, some, some_injective, ok_injective,
  List, [], ◌∷◌, Text, Bytes, ◌==◌, text_eq, if◌then◌else◌, Option-cases, inl, inr, Result, ok,
  throw, >>=-eq-ok,
}
use compact_multi_part_event.Bytes.Order.{bytes_equal_iff}
use compact_multi_part_event.Packages.{Package, Status, accepted, rejected}
use compact_multi_part_event.Transaction.{is_empty, is_accepted, includes, included_statuses}
use compact_multi_part_event.Verification.Checks.{package_check, comparison_check, key_check}
use compact_multi_part_event.Verification.Facts.{status_check, hash_check}
use compact_multi_part_event.Verification.Keys.{
  VerifierKeyComparison, compare_keys, deployed_verifier_key, compare_deployed_verifier_key,
}
use compact_multi_part_event.Verification.Levels.{Check}
use compact_multi_part_event.Verification.Records.{Entry}

-- A choice between a check and a failing one, which passed.
pub chosen :
    (b : Bool) (c d : Check)
    → d.passed ≡ false
    → (if b then c else d).passed ≡ true
    → (b ≡ true) × (c.passed ≡ true)
chosen true c d failed h = (refl, h)
chosen false c d failed h = let clash = sym failed ∙ h in cc

pub same_level :
    (n : ℕ) (b : Bool) (c d : Check) → c.level ≡ n → d.level ≡ n → (if b then c else d).level ≡ n
same_level n true c d h k = h
same_level n false c d h k = k

is_empty-nil : {A : Type 0} (xs : List A) → is_empty xs ≡ true → xs ≡ []
is_empty-nil [] h = refl
is_empty-nil (x ∷ xs) h = cc

is_accepted-eq : (status : Status) → is_accepted status ≡ true → status ≡ accepted
is_accepted-eq accepted h = refl
is_accepted-eq rejected h = cc

pub status_check-passed :
    (status : Text) → (status_check status).passed ≡ true → includes included_statuses status ≡ true
unfolding status_check
status_check-passed status h = (chosen (includes included_statuses status) _ _ refl h).0

pub hash_check-passed :
    (own : Option Text) (hash s : Text)
    → (hash_check own hash).passed ≡ true
    → own ≡ some s
    → s ≡ hash
unfolding hash_check
hash_check-passed none hash s h e = cc
hash_check-passed (some own) hash s h e =
    sym (some_injective e) ∙ (text_eq.beq_iff own hash).0 (chosen (own == hash) _ _ refl h).0

module _ (sha256_hex : Bytes → Text) where
  pub package_check-level :
      (entry : Entry) (issues : List Text) → (package_check sha256_hex entry issues).level ≡ 1
  unfolding package_check
  package_check-level entry issues = elim (Option-cases entry.from_events) [
    | inl none_shown ↦ rw (package_check, none_shown) refl
    | inr (pkg, is) ↦
        rw (package_check, is)
          (same_level 1 (is_accepted pkg.status) _ _ (same_level 1 (is_empty issues) _ _ refl refl)
            refl)
  ]

  pub package_check-passed :
      (entry : Entry) (issues : List Text)
      → (package_check sha256_hex entry issues).passed ≡ true
      → (pkg : Package) × (entry.from_events ≡ some pkg) × (pkg.status ≡ accepted) × (issues ≡ [])
  unfolding package_check
  package_check-passed entry issues h = elim (Option-cases entry.from_events) [
    | inl none_shown ↦ let clash = rw (package_check, none_shown) at h in cc
    | inr (pkg, is) ↦
        let shown = rw (package_check, is) at h in
        let (taken, next) = chosen (is_accepted pkg.status) _ _ refl shown in
        (
          pkg,
          is,
          is_accepted-eq pkg.status taken,
          is_empty-nil issues (chosen (is_empty issues) _ _ refl next).0,
        )
  ]

module _ (sha256_hex : Bytes → Text) (operation_key : Bytes → Text → Result (Option Bytes)) where
  comparison_check-level :
      (entry_point place : Text) (c : VerifierKeyComparison)
      → (comparison_check entry_point place c).level ≡ 3
  unfolding comparison_check
  comparison_check-level entry_point place c = elim (Option-cases c.deployed_sha256) [
    | inl absent ↦ rw (comparison_check, absent) refl
    | inr (digest, is) ↦ rw (comparison_check, is) (same_level 3 c.equal _ _ refl refl)
  ]

  comparison_check-passed :
      (entry_point place : Text) (c : VerifierKeyComparison)
      → (comparison_check entry_point place c).passed ≡ true
      → c.equal ≡ true
  unfolding comparison_check
  comparison_check-passed entry_point place c h = elim (Option-cases c.deployed_sha256) [
    | inl absent ↦ let clash = rw (comparison_check, absent) at h in cc
    | inr (digest, is) ↦ (chosen c.equal _ _ refl (rw (comparison_check, is) at h)).0
  ]

  compare_keys-equal :
      (deployed : Option Bytes) (expected : Bytes)
      → (compare_keys sha256_hex deployed expected).equal ≡ true
      → deployed ≡ some expected
  unfolding compare_keys
  compare_keys-equal none expected h = cc
  compare_keys-equal (some key) expected h = ap some ((bytes_equal_iff key expected).0 h)

  pub key_check-level :
      (entry_point place : Text) (expected : Bytes) (state : Option Bytes)
      → (key_check sha256_hex operation_key entry_point place expected state).level ≡ 3
  unfolding key_check
  key_check-level entry_point place expected none = refl
  key_check-level entry_point place expected (some state) =
      by_result (compare_deployed_verifier_key operation_key sha256_hex state entry_point expected)
        refl
    where
      by_result :
          (r : Result VerifierKeyComparison)
          → compare_deployed_verifier_key operation_key sha256_hex state entry_point expected ≡ r
          → (key_check sha256_hex operation_key entry_point place expected (some state)).level ≡ 3
      by_result (throw e) same = rw (key_check, same) refl
      by_result (ok c) same = rw (key_check, same) (comparison_check-level entry_point place c)

  pub key_check-passed :
      (entry_point place : Text) (expected : Bytes) (state : Option Bytes)
      → (key_check sha256_hex operation_key entry_point place expected state).passed ≡ true
      → (bytes : Bytes) × (state ≡ some bytes)
        × (deployed_verifier_key operation_key bytes entry_point ≡ ok (some expected))
  unfolding key_check compare_deployed_verifier_key
  key_check-passed entry_point place expected none h = cc
  key_check-passed entry_point place expected (some state) h =
      by_result (compare_deployed_verifier_key operation_key sha256_hex state entry_point expected)
        refl
    where
      by_result :
          (r : Result VerifierKeyComparison)
          → compare_deployed_verifier_key operation_key sha256_hex state entry_point expected ≡ r
          → (bytes : Bytes) × (some state ≡ some bytes)
            × (deployed_verifier_key operation_key bytes entry_point ≡ ok (some expected))
      by_result (throw e) same = let clash = rw (key_check, same) at h in cc
      by_result (ok c) same =
          let equal = comparison_check-passed entry_point place c (rw (key_check, same) at h) in
          let (key, first, last) =
            >>=-eq-ok (deployed_verifier_key operation_key state entry_point) _ same in
          let keys =
            compare_keys-equal key expected (ap (λ x. x.equal) (ok_injective last) ∙ equal) in
          (state, refl, first ∙ ap ok keys)
