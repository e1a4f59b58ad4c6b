-- ===== src/Verification/Levels.antt =====
-- src/cli/verify.ts: the checks and the level that they reach. A level is a natural number, 0 to 3.
pub mod Highest
use compact_multi_part_event.Prelude.{
  ℕ, Bool, true, false, not, ◌||◌, List, [], ◌∷◌, Text, ltb, nat_eq, every, select, if◌then◌else◌,
}
use compact_multi_part_event.Transaction.{is_empty}

pub record Check : Type 0 where
  pub level : ℕ
  pub passed : Bool
  pub message : Text

abbrev pub at_level : ℕ → List Check → List Check
at_level candidate checks = select (λ check. nat_eq check.level candidate) checks

-- The loop over the candidates; `break` leaves the level that is reached.
unfoldable pub level_from : List Check → ℕ → ℕ → List ℕ → ℕ
level_from checks requested level [] = level
level_from checks requested level (candidate ∷ candidates) =
    let here = at_level candidate checks in
    let higher = level_from checks requested candidate candidates in
    if ltb requested candidate
    then level
    else if is_empty here || not (every (λ check. check.passed) here)
    then level
    else higher

unfoldable pub level_of : List Check → ℕ → ℕ
level_of checks requested = level_from checks requested 0 (1 ∷ 2 ∷ 3 ∷ [])
