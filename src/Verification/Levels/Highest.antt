-- ===== src/Verification/Levels/Highest.antt =====
-- `levelOf` of src/cli/verify.ts against the levels that the checks pass.
use compact_multi_part_event.Prelude.{
  Bool-cases, ◌≢◌, ℕ, leb, subst, ◌+◌, zero, suc, ◌≤◌, ◌<◌, ◌≡◌, refl, sym, ◌↔◌, Bool, true, false,
  not, ◌&&◌, ◌||◌, List, [], ◌∷◌, ltb, nat_eq, nat_eq_iff, every, select, All, arith, inl, inr, ◌⊎◌,
}
use compact_multi_part_event.Transaction.{is_empty}
use compact_multi_part_event.Verification.Levels.{Check, at_level, level_from, level_of}

-- Some check is of the level.
abbrev pub HasLevel : ℕ → List Check → Type 0
HasLevel k [] = ⊥
HasLevel k (check ∷ checks) = (check.level ≡ k) ⊎ HasLevel k checks

-- Some check is of the level, and every check of the level passed.
abbrev pub IsPassed : ℕ → List Check → Type 0
IsPassed k checks = HasLevel k checks × All (λ check. check.level ≡ k → check.passed ≡ true) checks

abbrev passes : ℕ → List Check → Bool
passes k checks =
    not (is_empty (at_level k checks) || not (every (λ check. check.passed) (at_level k checks)))

is_level : (check : Check) (k : ℕ) → (check.level ≡ k) ⊎ (check.level ≢ k)
is_level check k = elim (Bool-cases (nat_eq check.level k)) [
  | inl equal ↦ inl ((nat_eq_iff check.level k).0 equal)
  | inr differs ↦ inr (λ same. let equal = (nat_eq_iff check.level k).1 same in cc)
]

at_level-here :
    (k : ℕ) (check : Check) (checks : List Check)
    → check.level ≡ k
    → at_level k (check ∷ checks) ≡ check ∷ at_level k checks
at_level-here k check checks same =
    let yes : nat_eq check.level k ≡ true = (nat_eq_iff check.level k).1 same in
    rw (select, yes) refl

at_level-there :
    (k : ℕ) (check : Check) (checks : List Check)
    → check.level ≢ k
    → at_level k (check ∷ checks) ≡ at_level k checks
at_level-there k check checks other = elim (Bool-cases (nat_eq check.level k)) [
  | inl equal ↦ absurd (other ((nat_eq_iff check.level k).0 equal))
  | inr differs ↦ rw (select, differs) refl
]

and_true : (a b : Bool) → (a && b) ≡ true → (a ≡ true) × (b ≡ true)
and_true true b h = (refl, h)
and_true false b h = cc

empty_iff :
    (k : ℕ) (checks : List Check) → (is_empty (at_level k checks) ≡ false) ↔ HasLevel k checks
empty_iff k [] = ((λ h. cc), λ h. absurd h)
empty_iff k (check ∷ checks) = elim (is_level check k) [
  | inl same ↦ rw (at_level-here k check checks same) ((λ h. inl same), λ h. refl)
  | inr other ↦ rw (at_level-there k check checks other) (
    (λ h. inr ((empty_iff k checks).0 h)),
    λ h. elim h [ inl same ↦ absurd (other same) | inr later ↦ (empty_iff k checks).1 later ],
  )
]

every_iff :
    (k : ℕ) (checks : List Check)
    → (every (λ check. check.passed) (at_level k checks) ≡ true)
      ↔ All (λ check. check.level ≡ k → check.passed ≡ true) checks
every_iff k [] = ((λ h. tt), λ h. refl)
every_iff k (check ∷ checks) = elim (is_level check k) [
  | inl same ↦ rw (at_level-here k check checks same) (
    (λ h. ((λ e. (and_true _ _ h).0), (every_iff k checks).0 (and_true _ _ h).1)),
    λ h. rw (h.0 same, (every_iff k checks).1 h.1) refl,
  )
  | inr other ↦ rw (at_level-there k check checks other) (
    (λ h. ((λ same. absurd (other same)), (every_iff k checks).0 h)),
    λ h. (every_iff k checks).1 h.1,
  )
]

passes_iff : (k : ℕ) (checks : List Check) → (passes k checks ≡ true) ↔ IsPassed k checks
passes_iff k checks = (
  (λ h. let both = neither _ _ h in ((empty_iff k checks).0 both.0, (every_iff k checks).0 both.1)),
  λ passed. rw ((empty_iff k checks).1 passed.0, (every_iff k checks).1 passed.1) refl,
)
  where
    neither : (a b : Bool) → not (a || not b) ≡ true → (a ≡ false) × (b ≡ true)
    neither true b h = cc
    neither false true h = (refl, refl)
    neither false false h = cc

-- The highest level that is at most the requested one and passed, with every level below it.
pub record IsHighest (checks : List Check) (requested level : ℕ) : Type 0 where
  pub known : level ≤ 3
  pub asked : level ≤ requested
  pub passed : (k : ℕ) → 1 ≤ k → k ≤ level → IsPassed k checks
  pub stopped : level < 3 → level < requested → ¬ IsPassed (suc level) checks

ℕ_split : (j level : ℕ) → j ≤ suc level → (j ≤ level) ⊎ (j ≡ suc level)
ℕ_split j level h = elim (Bool-cases (leb j level)) [
  | inl low ↦ inl (ground (arith, low))
  | inr high ↦ inr (ground (arith, high, h))
]

-- The candidates above a level.
abbrev above : ℕ → ℕ → List ℕ
above level zero = []
above level (suc n) = suc level ∷ above (suc level) n

blocked : ℕ → List Check → Bool
blocked k checks =
    is_empty (at_level k checks) || not (every (λ check. check.passed) (at_level k checks))

level_from-IsHighest :
    (checks : List Check) (requested level n : ℕ)
    → level + n ≡ 3
    → level ≤ requested
    → ((k : ℕ) → 1 ≤ k → k ≤ level → IsPassed k checks)
    → IsHighest checks requested (level_from checks requested level (above level n))
unfolding level_from blocked
level_from-IsHighest checks requested level zero three asked passed = record {
  known = omega arith;
  asked = asked;
  passed = passed;
  stopped = λ low. absurd (omega arith);
}
level_from-IsHighest checks requested level (suc n) three asked passed =
    cases (ltb requested (suc level)) (blocked (suc level) checks) refl refl
      (level_from-IsHighest checks requested (suc level) n (omega arith))
  where
    cases :
        (b c : Bool)
        → ltb requested (suc level) ≡ b
        → blocked (suc level) checks ≡ c
        → (suc level ≤ requested
            → ((k : ℕ) → 1 ≤ k → k ≤ suc level → IsPassed k checks)
            → IsHighest checks requested
                (level_from checks requested (suc level) (above (suc level) n)))
        → IsHighest checks requested (level_from checks requested level (above level (suc n)))
    cases true c h k higher =
        rw (level_from, h)
          (record {
            known = omega arith;
            asked = asked;
            passed = passed;
            stopped = λ low more.
                let over : requested < suc level = ground (arith, h) in absurd (omega arith);
          })
    cases false true h k higher =
        rw (level_from, h, k)
          (record {
            known = omega arith;
            asked = asked;
            passed = passed;
            stopped = λ low more fine.
                let through = (passes_iff (suc level) checks).1 fine in
                let no : not true ≡ true = subst (λ b. not b ≡ true) k through in cc;
          })
    cases false false h k higher =
        let here : IsPassed (suc level) checks = (passes_iff (suc level) checks).0 (rw k refl) in
        rw (level_from, h, k)
          (higher (ground (arith, h)) (λ j low high. elim (ℕ_split j level high) [
            | inl below ↦ passed j low below
            | inr same ↦ subst (λ i. IsPassed i checks) (sym same) here
          ]))

-- The level of a list of checks is at most three and the requested one; every level from one up to
-- it has a check, and all its checks passed; and the next level, if it is asked for, has no check
-- or a failed one.
pub level_of-IsHighest :
    (checks : List Check) (requested : ℕ) → IsHighest checks requested (level_of checks requested)
unfolding level_of
level_of-IsHighest checks requested =
    level_from-IsHighest checks requested 0 3 refl (omega arith)
      (λ k low high. absurd (omega arith))
