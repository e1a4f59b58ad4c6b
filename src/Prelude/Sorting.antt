-- ===== src/Prelude/Sorting.antt =====
-- `Array.prototype.sort` by a comparator: it is stable, so insertion sort is its result.
use Prim.Native.Nat.{Ordering}
use mathlib.Core.Path.{◌≡◌}
use mathlib.Core.Bool.{Bool, true, false}
use mathlib.Core.List.{List, [], ◌∷◌, Perm}
use mathlib.Core.List.Perm
use compact_multi_part_event.Prelude.Lists.{All}

-- A comparator's result: negative, zero or positive.
abbrev pub Comparator {ℓ} : Type ℓ → Type ℓ
Comparator A = A → A → Ordering

-- `a || b` on comparator results.
abbrev pub or_else : Ordering → Ordering → Ordering
or_else Ordering.lt b = Ordering.lt
or_else Ordering.eq b = b
or_else Ordering.gt b = Ordering.gt

abbrev pub is_gt : Ordering → Bool
is_gt Ordering.gt = true
is_gt _ = false

module _ {ℓ} {A : Type ℓ} (order : Comparator A) where
  unfoldable pub insert : A → List A → List A
  insert x [] = x ∷ []
  insert x (y ∷ ys) = elim (is_gt (order x y)) [ true ↦ y ∷ insert x ys | false ↦ x ∷ y ∷ ys ]

  unfoldable pub sort : List A → List A
  unfolding insert
  sort [] = []
  sort (x ∷ xs) = insert x (sort xs)

  insert-perm : (x : A) (xs : List A) → Perm (insert x xs) (x ∷ xs)
  unfolding insert
  insert-perm x [] = Perm.rfl
  insert-perm x (y ∷ ys) =
      elim (is_gt (order x y))
        as (λ b. Perm (elim b [ true ↦ y ∷ insert x ys | false ↦ x ∷ y ∷ ys ]) (x ∷ y ∷ ys)) [
          | true ↦ Perm.trans (Perm.cons y (insert-perm x ys)) (Perm.swap x y ys)
          | false ↦ Perm.rfl
        ]

  pub sort-perm : (xs : List A) → Perm (sort xs) xs
  unfolding sort
  sort-perm [] = Perm.rfl
  sort-perm (x ∷ xs) = Perm.trans (insert-perm x (sort xs)) (Perm.cons x (sort-perm xs))

  abbrev pub IsOrdered : List A → Type ℓ
  IsOrdered [] = Unit
  IsOrdered (x ∷ xs) = All (λ y. is_gt (order x y) ≡ false) xs × IsOrdered xs

module _ {ℓ κ} {A : Type ℓ} (order : Comparator A) (P : A → Type κ) where
  insert-All : (x : A) (xs : List A) → P x → All P xs → All P (insert order x xs)
  unfolding insert
  insert-All x [] p h = (p, tt)
  insert-All x (y ∷ ys) p (q, h) =
      elim (is_gt (order x y))
        as (λ b. All P (elim b [ true ↦ y ∷ insert order x ys | false ↦ x ∷ y ∷ ys ])) [
          | true ↦ (q, insert-All x ys p h)
          | false ↦ (p, (q, h))
        ]

  pub sort-All : (xs : List A) → All P xs → All P (sort order xs)
  unfolding sort
  sort-All [] h = tt
  sort-All (x ∷ xs) (p, h) = insert-All x (sort order xs) p (sort-All xs h)

module _ {ℓ} {A : Type ℓ} (order : Comparator A) where
  insert-cons : (x : A) (ys : List A) → ¬ (insert order x ys ≡ [])
  unfolding insert
  insert-cons x [] = λ h. cc
  insert-cons x (y ∷ ys) =
      elim (is_gt (order x y))
        as (λ b. ¬ (elim b [ true ↦ y ∷ insert order x ys | false ↦ x ∷ y ∷ ys ] ≡ [])) [
          | true ↦ λ h. cc
          | false ↦ λ h. cc
        ]

  pub sort-cons : (x : A) (xs : List A) → ¬ (sort order (x ∷ xs) ≡ [])
  unfolding sort
  sort-cons x xs = insert-cons x (sort order xs)
