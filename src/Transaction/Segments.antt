-- ===== src/Transaction/Segments.antt =====
-- What one intent contributes to an activity of src/reader/transaction.ts, by its segment.
use compact_multi_part_event.Prelude.{
  ℕ, compare, Ordering, ◌≡◌, ◌≢◌, refl, some, List, [], ◌∷◌, ℕ_eq, nat_eq, lookup, select, insert,
  sort, All, arith, Bool-cases, inl, inr,
}

abbrev pub at_segment {ℓ} : {A : Type ℓ} → ℕ → List (ℕ × A) → List (ℕ × A)
at_segment s xs = select (λ x. nat_eq x.0 s) xs

abbrev by_segment {ℓ} : {A : Type ℓ} → ℕ × A → ℕ × A → Ordering
by_segment left right = compare left.0 right.0

module _ {ℓ} {A : Type ℓ} where
  at_segment-insert :
      (s : ℕ) (x : ℕ × A) (xs : List (ℕ × A))
      → at_segment s (insert by_segment x xs) ≡ at_segment s (x ∷ xs)
  unfolding insert
  at_segment-insert s x [] = refl
  at_segment-insert s x (y ∷ xs) = ground (arith, at_segment-insert s x xs)

  -- A stable sort by segment leaves the entries of one segment in their order.
  pub at_segment-sort :
      (s : ℕ) (xs : List (ℕ × A)) → at_segment s (sort by_segment xs) ≡ at_segment s xs
  unfolding sort
  at_segment-sort s [] = refl
  at_segment-sort s (x ∷ xs) =
      ground (arith, at_segment-insert s x (sort by_segment xs), at_segment-sort s xs)

  -- The segments of a map differ from one another.
  abbrev pub HasDistinctKeys : List (ℕ × A) → Type 0
  HasDistinctKeys [] = Unit
  HasDistinctKeys ((s, x) ∷ xs) = All (λ y. y.0 ≢ s) xs × HasDistinctKeys xs

  at_segment-none : (s : ℕ) (xs : List (ℕ × A)) → All (λ y. y.0 ≢ s) xs → at_segment s xs ≡ []
  at_segment-none s [] h = refl
  at_segment-none s (y ∷ xs) (ne, h) = ground (arith, at_segment-none s xs h)

  -- So a segment's entry is the one that a lookup finds.
  pub at_segment-lookup :
      (s : ℕ) (x : A) (xs : List (ℕ × A))
      → HasDistinctKeys xs
      → lookup s xs ≡ some x
      → at_segment s xs ≡ (s, x) ∷ []
  at_segment-lookup s x [] d e = absurd (cc)
  at_segment-lookup s x ((t, y) ∷ xs) (ne, d) e = elim (Bool-cases (nat_eq t s)) [
    | inl here ↦
        let same : t ≡ s = ground arith in
        let none_left = at_segment-none s xs (rw same at ne) in ground (arith, none_left)
    | inr later ↦ ground (arith, at_segment-lookup s x xs d)
  ]
