-- ===== src/Guard/Transactions.antt =====
-- The packages of a transaction under the checks of src/publisher/guard.ts.
use compact_multi_part_event.Prelude.{
  ℕ, ◌+◌, ◌≤◌, ◌≡◌, ◌≢◌, sym, false, not, Option, List, [], ◌∷◌, Text, length, nat_eq_iff, leb, All,
  ok, guard-eq-ok, >>=-eq-ok, arith,
}
use compact_multi_part_event.Guard.{
  ExpectedPackage, has_segment, check_segments, package_stage, assert_package_intent, frozen_for,
  frozen_after, check_each, assert_transaction_packages,
}
use compact_multi_part_event.Guard.Soundness.{assert_package_intent-IsPackageIntent}
use compact_multi_part_event.Guard.Spec.{IsPackageIntent}
use compact_multi_part_event.Ledger.{Ledger}

-- No two packages have one segment.
abbrev pub AreApart : List ExpectedPackage → Type 0
AreApart [] = Unit
AreApart (pkg ∷ packages) =
    All (λ (other : ExpectedPackage). other.segment ≢ pkg.segment) packages × AreApart packages

-- No package has a segment that was seen.
abbrev AreNew : List ℕ → List ExpectedPackage → Type 0
AreNew seen packages =
    All (λ (pkg : ExpectedPackage). has_segment seen pkg.segment ≡ false) packages

apart_from : (s t : ℕ) (seen : List ℕ) → has_segment (s ∷ seen) t ≡ false → t ≢ s
apart_from s t seen h same = ground (arith, (nat_eq_iff s t).1 (sym same), h)

AreNew-tail :
    (s : ℕ) (seen : List ℕ) (packages : List ExpectedPackage)
    → AreNew (s ∷ seen) packages
    → All (λ (pkg : ExpectedPackage). pkg.segment ≢ s) packages × AreNew seen packages
AreNew-tail s seen [] h = (tt, tt)
AreNew-tail s seen (pkg ∷ packages) (h, hs) =
    let (apart, new) = AreNew-tail s seen packages hs in
    ((apart_from s pkg.segment seen h, apart), (ground (arith, h), new))

check_segments-AreApart :
    (stage : Text) (seen : List ℕ) (packages : List ExpectedPackage)
    → check_segments stage seen packages ≡ ok tt
    → AreNew seen packages × AreApart packages
unfolding check_segments
check_segments-AreApart stage seen [] e = (tt, tt)
check_segments-AreApart stage seen (pkg ∷ packages) e =
    let (fresh, e1) = guard-eq-ok (not (has_segment seen pkg.segment)) _ _ e in
    let (new, apart) = check_segments-AreApart stage (pkg.segment ∷ seen) packages e1 in
    let (others, older) = AreNew-tail pkg.segment seen packages new in
    ((ground arith, older), (others, apart))

module _ (L : Ledger) where
  open L use {Transcript, Tx}

  -- Each package's intent is in the transaction, with the frozen transcripts of its place.
  abbrev pub AreIntents : Tx → List ExpectedPackage → Option (List (List Transcript)) → Type 0
  AreIntents tx [] frozen = Unit
  AreIntents tx (pkg ∷ packages) frozen =
      IsPackageIntent L tx pkg (frozen_for L frozen)
      × AreIntents tx packages (frozen_after L frozen)

  pub record IsPackaged (tx : Tx) (packages : List ExpectedPackage)
      (frozen : Option (List (List Transcript))) : Type 0 where
    pub some_package : 1 ≤ length packages
    pub apart : AreApart packages
    pub held : AreIntents tx packages frozen

  check_each-AreIntents :
      (tx : Tx) (stage : Text) (count index : ℕ) (packages : List ExpectedPackage)
      (frozen : Option (List (List Transcript)))
      → check_each L tx stage count index packages frozen ≡ ok tt
      → AreIntents tx packages frozen
  unfolding check_each
  check_each-AreIntents tx stage count index [] frozen e = tt
  check_each-AreIntents tx stage count index (pkg ∷ packages) frozen e =
      let (_, e1, e2) =
        >>=-eq-ok
          (assert_package_intent L tx pkg (package_stage stage count index) (frozen_for L frozen)) _
          e in
      (
        assert_package_intent-IsPackageIntent L tx pkg (package_stage stage count index)
            (frozen_for L frozen) e1,
        check_each-AreIntents tx stage count (index + 1) packages (frozen_after L frozen) e2,
      )

  -- If the checks of a transaction pass at a stage, then there is a package, no two packages share
  -- a segment, and every package's intent is in the transaction with one guaranteed-only call for
  -- each of its parts and nothing else.
  pub assert_transaction_packages-IsPackaged :
      (tx : Tx) (packages : List ExpectedPackage) (stage : Text)
      (frozen : Option (List (List Transcript)))
      → assert_transaction_packages L tx packages stage frozen ≡ ok tt
      → IsPackaged tx packages frozen
  unfolding assert_transaction_packages
  assert_transaction_packages-IsPackaged tx packages stage frozen e =
      let (count, e1) = guard-eq-ok (leb 1 (length packages)) _ _ e in
      let (_, e2, e3) = >>=-eq-ok (check_segments stage [] packages) _ e1 in
      record {
        some_package = ground arith;
        apart = (check_segments-AreApart stage [] packages e2).1;
        held = check_each-AreIntents tx stage (length packages) 0 packages frozen e3;
      }
