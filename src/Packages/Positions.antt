-- ===== src/Packages/Positions.antt =====
-- The positions of a package, and the deliveries at them: src/reader/packages.ts.
use compact_multi_part_event.Prelude.{
  ℕ, ◌<◌, compare, ◌≡◌, refl, sym, dec_lt, ◌∙◌, ◌⊎◌, inl, inr, Bool, true, false, Option, none,
  some, List, [], ◌∷◌, map, Bytes, ℕ_eq, nat_eq, Dictionary, lookup, store, lookup-store, All,
  arith, Bool-cases, if◌then◌else◌, insert, sort,
}

-- Membership, by recursion.
abbrev pub Member : {A : Type 0} → A → List A → Type 0
Member x [] = ⊥
Member x (y ∷ ys) = (y ≡ x) ⊎ Member x ys

abbrev pub IsAscending : List ℕ → Type 0
IsAscending [] = Unit
IsAscending (p ∷ ps) = All (λ q. p < q) ps × IsAscending ps

abbrev pub has : ℕ → List ℕ → Bool
has p [] = false
has p (q ∷ qs) = if nat_eq q p then true else has p qs

abbrev pub is_some {ℓ} : {A : Type ℓ} → Option A → Bool
is_some none = false
is_some (some a) = true

abbrev pub keys : Dictionary ℕ Bytes → List ℕ
keys m = map (λ entry. entry.0) m

-- The keys of a map differ from one another.
abbrev pub IsDistinct : List ℕ → Type 0
IsDistinct [] = Unit
IsDistinct (p ∷ ps) = (has p ps ≡ false) × IsDistinct ps

pub has-keys : (p : ℕ) (m : Dictionary ℕ Bytes) → has p (keys m) ≡ is_some (lookup p m)
has-keys p [] = refl
has-keys p ((q, v) ∷ m) = ground (arith, has-keys p m)

pub store-IsDistinct :
    (p : ℕ) (v : Bytes) (m : Dictionary ℕ Bytes)
    → IsDistinct (keys m)
    → IsDistinct (keys (store p v m))
store-IsDistinct p v [] h = (refl, tt)
store-IsDistinct p v ((q, w) ∷ m) (fresh, h) =
    ground (
      arith,
      store-IsDistinct p v m h,
      has-keys q m,
      has-keys q (store p v m),
      lookup-store p q v m,
    )

has-insert : (p q : ℕ) (ps : List ℕ) → has p (insert compare q ps) ≡ has p (q ∷ ps)
unfolding insert
has-insert p q [] = refl
has-insert p q (r ∷ ps) = ground (arith, has-insert p q ps)

pub has-sort : (p : ℕ) (ps : List ℕ) → has p (sort compare ps) ≡ has p ps
unfolding sort
has-sort p [] = refl
has-sort p (q ∷ ps) = ground (arith, has-insert p q (sort compare ps), has-sort p ps)

All-lt_trans : (p q : ℕ) (ps : List ℕ) → p < q → All (λ r. q < r) ps → All (λ r. p < r) ps
All-lt_trans p q [] h a = tt
All-lt_trans p q (r ∷ ps) h (k, a) = (omega arith, All-lt_trans p q ps h a)

All-insert_lt :
    (p q : ℕ) (ps : List ℕ) → p < q → All (λ r. p < r) ps → All (λ r. p < r) (insert compare q ps)
unfolding insert
All-insert_lt p q [] h a = (h, tt)
All-insert_lt p q (r ∷ ps) h (k, a) = ground (arith, All-insert_lt p q ps h a)

insert-IsAscending :
    (q : ℕ) (ps : List ℕ) → has q ps ≡ false → IsAscending ps → IsAscending (insert compare q ps)
unfolding insert
insert-IsAscending q [] f h = (tt, tt)
insert-IsAscending q (r ∷ ps) f (a, h) =
    ground
      (arith, insert-IsAscending q ps (ground arith) h, All-insert_lt r q ps, All-lt_trans q r ps)

-- Sorting numbers that differ gives a strictly ascending list.
pub sort-IsAscending : (ps : List ℕ) → IsDistinct ps → IsAscending (sort compare ps)
unfolding sort
sort-IsAscending [] h = tt
sort-IsAscending (q ∷ ps) (f, h) =
    insert-IsAscending q (sort compare ps) (has-sort q ps ∙ f) (sort-IsAscending ps h)

has_of_lt : (p : ℕ) (ps : List ℕ) → All (λ r. p < r) ps → has p ps ≡ false
has_of_lt p [] a = refl
has_of_lt p (r ∷ ps) (h, a) = ground (arith, has_of_lt p ps a)

has_before : (p q : ℕ) (qs : List ℕ) → p < q → All (λ r. q < r) qs → has p (q ∷ qs) ≡ false
has_before p q qs h b = has_of_lt p (q ∷ qs) (h, All-lt_trans p q qs h b)

module _ (p q : ℕ) (ps qs : List ℕ) (a : All (λ r. p < r) ps) (b : All (λ r. q < r) qs)
    (same : (r : ℕ) → has r (p ∷ ps) ≡ has r (q ∷ qs)) where
  same_first : p ≡ q
  same_first = elim (dec_lt p q) [
    | yes lt ↦ absurd (ground (arith, same p, has_before p q qs lt b))
    | no ge ↦ elim (dec_lt q p) [
      | yes gt ↦ absurd (ground (arith, same q, has_before q p ps gt a))
      | no le ↦ omega arith
    ]
  ]

  same_rest : (r : ℕ) → has r ps ≡ has r qs
  same_rest r = elim (Bool-cases (nat_eq p r)) [
    | inl here ↦
        let e : p ≡ r = ground arith in
        has_of_lt r ps (rw e at a) ∙ sym (has_of_lt r qs (rw (sym same_first ∙ e) at b))
    | inr later ↦ ground (arith, same r, same_first)
  ]

-- Strictly ascending lists with the same members are the same.
pub ascending_unique :
    (ps qs : List ℕ) → IsAscending ps → IsAscending qs → ((r : ℕ) → has r ps ≡ has r qs) → ps ≡ qs
ascending_unique [] [] h k same = refl
ascending_unique [] (q ∷ qs) h k same = absurd (ground (arith, same q))
ascending_unique (p ∷ ps) [] h k same = absurd (ground (arith, same p))
ascending_unique (p ∷ ps) (q ∷ qs) (a, h) (b, k) same =
    let first : p ≡ q = same_first p q ps qs a b same in
    let rest : ps ≡ qs = ascending_unique ps qs h k (same_rest p q ps qs a b same) in cc
