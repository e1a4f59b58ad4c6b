-- ===== src/Verification/Checks/Placed.antt =====
-- The placement that Level 2 of src/cli/verify.ts checks.
use compact_multi_part_event.Prelude.{
  ℕ, ◌≡◌, ◌≢◌, ◌≤◌, refl, sym, ap, ◌∙◌, subst, true, Option, none, some, ok_injective, List, [],
  ◌∷◌, ◌++◌, map, Text, leb, ◌&&◌, ok, >>=-eq-ok, arith, All, All-append, Option-cases, Bool-cases,
  inl, inr,
}
use compact_multi_part_event.Ledger.{Ledger}
use compact_multi_part_event.Packages.{Package}
use compact_multi_part_event.Transaction.{
  includes, included_statuses, deserialize_transaction, check_placement,
}
use compact_multi_part_event.Verification.Checks.{
  placed_check, placement_checks, fact_checks, fact_decoded, placement_target, decoded_checks,
  level_two_checks,
}
use compact_multi_part_event.Verification.Checks.Evidence.{
  same_level, status_check-passed, hash_check-passed,
}
use compact_multi_part_event.Verification.Facts.{failing, status_check, hash_check}
use compact_multi_part_event.Verification.Facts.Surveyed.{
  IsFact, AreOfLevelTwo, IsReported, missing, undecoded, found,
}
use compact_multi_part_event.Verification.Levels.{Check}
use compact_multi_part_event.Verification.Records.{
  VerifyTarget, SourceTransaction, VerifySource, VerifyRequest, Entry, TransactionFacts,
}

-- The checks of a level passed.
abbrev pub ArePassed : ℕ → List Check → Type 0
ArePassed k checks = All (λ check. check.level ≡ k → check.passed ≡ true) checks

pub ArePassed-split :
    (k : ℕ) (xs ys : List Check) → ArePassed k (xs ++ ys) → ArePassed k xs × ArePassed k ys
ArePassed-split k [] ys h = (tt, h)
ArePassed-split k (x ∷ xs) ys (p, h) =
    let (left, right) = ArePassed-split k xs ys h in ((p, left), right)

status_check-level : (status : Text) → (status_check status).level ≡ 2
unfolding status_check
status_check-level status = same_level 2 (includes included_statuses status) _ _ refl refl

hash_check-level : (own : Option Text) (hash : Text) → (hash_check own hash).level ≡ 2
unfolding hash_check
hash_check-level none hash = refl
hash_check-level (some own) hash = same_level 2 _ _ _ refl refl

placement_checks-passed :
    (placed : Check) (issues : List Text)
    → ArePassed 2 (placement_checks placed issues)
    → issues ≡ []
unfolding placement_checks
placement_checks-passed placed [] h = refl
placement_checks-passed placed (issue ∷ issues) (clash, h) = let no_way = clash refl in cc

placement_checks-AreOfLevelTwo :
    (placed : Check) (issues : List Text)
    → placed.level ≡ 2
    → AreOfLevelTwo (placement_checks placed issues)
unfolding placement_checks
placement_checks-AreOfLevelTwo placed [] h = (h, tt)
placement_checks-AreOfLevelTwo placed (issue ∷ issues) h = (refl, failed issues)
  where
    failed : (issues : List Text) → AreOfLevelTwo (map (failing 2) issues)
    failed [] = tt
    failed (issue ∷ issues) = (refl, failed issues)

module _ (L : Ledger) (V : VerifySource) (start : V.State) where
  open L use {Tx}

  -- The raw bytes of an included transaction of the hash hold the package where it must be.
  pub record IsPlaced (target : VerifyTarget) (hash : Text) (pkg : Package) : Type 0 where
    pub transaction : SourceTransaction
    pub decoded : Tx
    pub reported : IsReported L V start hash transaction
    pub deserializes : deserialize_transaction L transaction.raw ≡ ok decoded
    pub included : includes included_statuses transaction.status ≡ true
    pub agrees : (own : Text) → L.transaction_hash decoded ≡ some own → own ≡ hash
    pub places :
        check_placement L decoded (placement_target L target) pkg.scope.segment pkg.parts ≡ ok []

  decoded_checks-passed :
      (target : VerifyTarget) (segment : ℕ) (pkg : Package) (decoded : Tx) (placed : List Check)
      → decoded_checks L target segment pkg (some decoded) ≡ ok placed
      → ArePassed 2 placed
      → check_placement L decoded (placement_target L target) pkg.scope.segment pkg.parts ≡ ok []
  unfolding decoded_checks
  decoded_checks-passed target segment pkg decoded placed h passed =
      let (issues, first, last) =
        >>=-eq-ok
          (check_placement L decoded (placement_target L target) pkg.scope.segment pkg.parts) _ h in
      first
      ∙ ap ok
          (placement_checks-passed _ issues (subst (ArePassed 2) (sym (ok_injective last)) passed))

  fact-IsPlaced :
      (target : VerifyTarget) (segment : ℕ) (pkg : Package) (hash : Text)
      (fact : TransactionFacts Tx) (placed : List Check)
      → IsFact L V start hash fact
      → decoded_checks L target segment pkg fact.decoded ≡ ok placed
      → ArePassed 2 (fact.checks ++ placed)
      → IsPlaced target hash pkg
  fact-IsPlaced target segment pkg hash fact placed missing h (clash, passed) =
      let no_way = clash refl in cc
  fact-IsPlaced target segment pkg hash fact placed (undecoded tx) h (clash, passed) =
      let no_way = clash refl in cc
  fact-IsPlaced target segment pkg hash fact placed (found tx decoded node from same two) h
        (status, (own, passed)) =
      record {
        transaction = tx;
        decoded = decoded;
        reported = from;
        deserializes = same;
        included = status_check-passed tx.status (status (status_check-level tx.status));
        agrees = λ s e. hash_check-passed _ hash s (own (hash_check-level _ hash)) e;
        places =
            decoded_checks-passed target segment pkg decoded placed h
              (ArePassed-split 2 node placed passed).1;
      }

  pub level_two_checks-IsPlaced :
      (request : VerifyRequest) (entry : Entry) (fact : Option (TransactionFacts Tx))
      (first : Check) (second : List Check) (pkg : Package) (hash : Text)
      → ((f : TransactionFacts Tx) → fact ≡ some f → IsFact L V start hash f)
      → level_two_checks L request entry fact first ≡ ok second
      → entry.from_events ≡ some pkg
      → first.passed ≡ true
      → 2 ≤ request.level
      → second ≢ []
      → ArePassed 2 second
      → IsPlaced request.target hash pkg
  unfolding level_two_checks decoded_checks
  level_two_checks-IsPlaced request entry none first second pkg hash facts h shown passed high
        some_checks all =
      let asked : leb 2 request.level ≡ true = ground (arith, high) in
      let empty = rw (level_two_checks, shown, asked, passed) at h in
      absurd (some_checks (sym (ok_injective empty)))
  level_two_checks-IsPlaced request entry (some f) first second pkg hash facts h shown passed high
        some_checks all =
      let asked : leb 2 request.level ≡ true = ground (arith, high) in
      let (placed, here, last) =
        >>=-eq-ok (decoded_checks L request.target entry.segment pkg f.decoded) _
          (rw (level_two_checks, shown, asked, passed) at h) in
      fact-IsPlaced request.target entry.segment pkg hash f placed (facts f refl) here
        (subst (ArePassed 2) (sym (ok_injective last)) all)

  decoded_checks-AreOfLevelTwo :
      (target : VerifyTarget) (segment : ℕ) (pkg : Package) (decoded : Option Tx)
      (placed : List Check)
      → decoded_checks L target segment pkg decoded ≡ ok placed
      → AreOfLevelTwo placed
  unfolding decoded_checks placed_check
  decoded_checks-AreOfLevelTwo target segment pkg none placed h =
      subst AreOfLevelTwo (ok_injective h) tt
  decoded_checks-AreOfLevelTwo target segment pkg (some decoded) placed h =
      let (issues, _, last) =
        >>=-eq-ok
          (check_placement L decoded (placement_target L target) pkg.scope.segment pkg.parts) _ h in
      subst AreOfLevelTwo (ok_injective last) (placement_checks-AreOfLevelTwo _ issues refl)

  fact_checks-AreOfLevelTwo :
      (hash : Text) (fact : Option (TransactionFacts Tx))
      → ((f : TransactionFacts Tx) → fact ≡ some f → IsFact L V start hash f)
      → AreOfLevelTwo (fact_checks L fact)
  fact_checks-AreOfLevelTwo hash none facts = tt
  fact_checks-AreOfLevelTwo hash (some f) facts = by_form f (facts f refl)
    where
      by_form : (f : TransactionFacts Tx) → IsFact L V start hash f → AreOfLevelTwo f.checks
      by_form f missing = (refl, tt)
      by_form f (undecoded tx) = (refl, tt)
      by_form f (found tx decoded node from same two) =
          (status_check-level tx.status, (hash_check-level _ hash, two))

  pub level_two_checks-AreOfLevelTwo :
      (request : VerifyRequest) (entry : Entry) (fact : Option (TransactionFacts Tx))
      (first : Check) (second : List Check) (hash : Text)
      → ((f : TransactionFacts Tx) → fact ≡ some f → IsFact L V start hash f)
      → level_two_checks L request entry fact first ≡ ok second
      → AreOfLevelTwo second
  unfolding level_two_checks
  level_two_checks-AreOfLevelTwo request entry fact first second hash facts h =
      elim (Option-cases entry.from_events) [
        | inl absent ↦ subst AreOfLevelTwo (ok_injective (rw (level_two_checks, absent) at h)) tt
        | inr (pkg, shown) ↦ elim (Bool-cases (leb 2 request.level && first.passed)) [
          | inr skipped ↦
              subst AreOfLevelTwo (ok_injective (rw (level_two_checks, shown, skipped) at h)) tt
          | inl taken ↦
              let (placed, here, last) =
                >>=-eq-ok (decoded_checks L request.target entry.segment pkg (fact_decoded L fact))
                  _ (rw (level_two_checks, shown, taken) at h) in
              subst AreOfLevelTwo (ok_injective last) (
                All-append _ (fact_checks L fact) placed (fact_checks-AreOfLevelTwo hash fact facts)
                  (decoded_checks-AreOfLevelTwo request.target entry.segment pkg
                    (fact_decoded L fact) placed here))
        ]
      ]
