-- ===== src/Prelude/Orders.antt =====
-- Lawful comparators, and what sorting by one gives.
use Prim.Native.Nat.{compare, Ordering}
use mathlib.Core.Path.{◌≡◌}
use mathlib.Core.Logic.{inl, inr}
use mathlib.Core.Bool.{true, false}
use mathlib.Core.List.{List, [], ◌∷◌}
use native.Mathlib.Omega.{arith}
use compact_multi_part_event.Prelude.Lists.{All}
use compact_multi_part_event.Prelude.Sorting.{Comparator, or_else, is_gt, insert, sort, IsOrdered}
use compact_multi_part_event.Prelude.Tests.{Bool-cases}

abbrev pub swap : Ordering → Ordering
swap Ordering.lt = Ordering.gt
swap Ordering.eq = Ordering.eq
swap Ordering.gt = Ordering.lt

pub record IsLawful {ℓ} {A : Type ℓ} (order : Comparator A) : Type ℓ where
  pub flip : (x y : A) → order y x ≡ swap (order x y)
  pub trans :
      (x y z : A) → order x y ≡ Ordering.lt → order y z ≡ Ordering.lt → order x z ≡ Ordering.lt
  pub congr : (x y z : A) → order x y ≡ Ordering.eq → order x z ≡ order y z

pub compare-IsLawful : IsLawful compare
compare-IsLawful = record {
  flip = λ x y. ground arith;
  trans = λ x y z h k. ground arith;
  congr = λ x y z h. ground arith;
}

module _ {ℓ} {A : Type ℓ} {order : Comparator A} (law : IsLawful order) where
  pub congr_right : (x y z : A) → order y z ≡ Ordering.eq → order x y ≡ order x z
  congr_right x y z h = ground (arith, law.flip y z, law.flip y x, law.flip z x, law.congr z y x)

  pub not_gt_trans :
      (x y z : A)
      → is_gt (order x y) ≡ false
      → is_gt (order y z) ≡ false
      → is_gt (order x z) ≡ false
  not_gt_trans x y z h k = ground (arith, law.trans x y z, law.congr x y z, congr_right x y z)

  pub not_gt_flip : (x y : A) → is_gt (order x y) ≡ true → is_gt (order y x) ≡ false
  not_gt_flip x y h = ground (arith, law.flip x y)

  All-not_gt :
      (x y : A) (ys : List A)
      → is_gt (order x y) ≡ false
      → All (λ z. is_gt (order y z) ≡ false) ys
      → All (λ z. is_gt (order x z) ≡ false) ys
  All-not_gt x y [] h k = tt
  All-not_gt x y (z ∷ ys) h (p, k) = (not_gt_trans x y z h p, All-not_gt x y ys h k)

  insert_after :
      (x y : A) (ys : List A)
      → is_gt (order x y) ≡ true
      → insert order x (y ∷ ys) ≡ y ∷ insert order x ys
  unfolding insert
  insert_after x y ys h = rw (h, insert)

  insert_here :
      (x y : A) (ys : List A) → is_gt (order x y) ≡ false → insert order x (y ∷ ys) ≡ x ∷ y ∷ ys
  unfolding insert
  insert_here x y ys h = rw (h, insert)

  All-insert {κ} :
      (P : A → Type κ) (x : A) (ys : List A) → P x → All P ys → All P (insert order x ys)
  unfolding insert
  All-insert P x [] p h = (p, tt)
  All-insert P x (y ∷ ys) p (q, h) = elim (Bool-cases (is_gt (order x y))) [
    | inl later ↦ rw (insert_after x y ys later) (q, All-insert P x ys p h)
    | inr here ↦ rw (insert_here x y ys here) (p, (q, h))
  ]

  insert-IsOrdered :
      (x : A) (ys : List A) → IsOrdered order ys → IsOrdered order (insert order x ys)
  unfolding insert
  insert-IsOrdered x [] h = (tt, tt)
  insert-IsOrdered x (y ∷ ys) (k, h) = elim (Bool-cases (is_gt (order x y))) [
    | inl later ↦ rw (insert_after x y ys later) (
      All-insert (λ z. is_gt (order y z) ≡ false) x ys (not_gt_flip x y later) k,
      insert-IsOrdered x ys h,
    )
    | inr here ↦ rw (insert_here x y ys here) ((here, All-not_gt x y ys here k), (k, h))
  ]

  -- Sorting by a lawful comparator gives an ordered list.
  pub sort-IsOrdered : (xs : List A) → IsOrdered order (sort order xs)
  unfolding sort
  sort-IsOrdered [] = tt
  sort-IsOrdered (x ∷ xs) = insert-IsOrdered x (sort order xs) (sort-IsOrdered xs)

-- A comparator followed by another one.
pub or_else-IsLawful {ℓ} :
    {A : Type ℓ} (f g : Comparator A)
    → IsLawful f
    → IsLawful g
    → IsLawful (λ x y. or_else (f x y) (g x y))
or_else-IsLawful f g lf lg = record {
  flip = λ x y. ground (arith, lf.flip x y, lg.flip x y);
  trans = λ x y z h k.
      ground (arith, lf.trans x y z, lf.congr x y z, congr_right lf x y z, lg.trans x y z);
  congr = λ x y z h. ground (arith, lf.congr x y z, lg.congr x y z);
}

-- A comparator of what two values are mapped to.
pub on-IsLawful {ℓ κ} :
    {A : Type ℓ} {B : Type κ} (f : A → B) {order : Comparator B}
    → IsLawful order
    → IsLawful (λ x y. order (f x) (f y))
on-IsLawful f law = record {
  flip = λ x y. law.flip (f x) (f y);
  trans = λ x y z. law.trans (f x) (f y) (f z);
  congr = λ x y z. law.congr (f x) (f y) (f z);
}
