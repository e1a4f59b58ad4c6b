-- ===== src/Bytes/Order.antt =====
-- Comparisons of bytes and of strings: src/reader/bytes.ts.
use compact_multi_part_event.Prelude.{
  ◌≡◌, refl, ◌↔◌, true, Ordering, [], ◌∷◌, Text, Bytes, length, IsLawful, arith, swap,
}
use compact_multi_part_event.Bytes.{same_bytes, bytes_equal, compare_code_units}

same_bytes_iff : (xs ys : Bytes) → length xs ≡ length ys → (same_bytes xs ys ≡ true) ↔ (xs ≡ ys)
unfolding same_bytes
same_bytes_iff [] [] h = (λ _. refl, λ _. refl)
same_bytes_iff [] (y ∷ ys) h = absurd (omega arith)
same_bytes_iff (x ∷ xs) [] h = absurd (omega arith)
same_bytes_iff (x ∷ xs) (y ∷ ys) h = ground (arith, same_bytes_iff xs ys (omega arith))

-- bytesEqual answers true exactly for equal byte strings.
pub bytes_equal_iff : (xs ys : Bytes) → (bytes_equal xs ys ≡ true) ↔ (xs ≡ ys)
unfolding bytes_equal
bytes_equal_iff xs ys = (
  λ h. (same_bytes_iff xs ys (ground arith)).0 (ground arith),
  λ e. rw (e, (same_bytes_iff ys ys refl).1 refl) (ground arith),
)

compare_flip : (s t : Text) → compare_code_units t s ≡ swap (compare_code_units s t)
unfolding compare_code_units
compare_flip [] [] = refl
compare_flip [] (d ∷ t) = refl
compare_flip (c ∷ s) [] = refl
compare_flip (c ∷ s) (d ∷ t) = ground (arith, compare_flip s t)

compare_eq : (s t : Text) → compare_code_units s t ≡ Ordering.eq → s ≡ t
unfolding compare_code_units
compare_eq [] [] h = refl
compare_eq [] (d ∷ t) h = cc
compare_eq (c ∷ s) [] h = cc
compare_eq (c ∷ s) (d ∷ t) h = ground (arith, compare_eq s t)

compare_self : (s : Text) → compare_code_units s s ≡ Ordering.eq
unfolding compare_code_units
compare_self [] = refl
compare_self (c ∷ s) = ground (arith, compare_self s)

compare_trans :
    (s t u : Text)
    → compare_code_units s t ≡ Ordering.lt
    → compare_code_units t u ≡ Ordering.lt
    → compare_code_units s u ≡ Ordering.lt
unfolding compare_code_units
compare_trans [] [] u h k = cc
compare_trans [] (d ∷ t) [] h k = cc
compare_trans [] (d ∷ t) (e ∷ u) h k = refl
compare_trans (c ∷ s) [] u h k = cc
compare_trans (c ∷ s) (d ∷ t) [] h k = cc
compare_trans (c ∷ s) (d ∷ t) (e ∷ u) h k = ground (arith, compare_trans s t u)

-- The comparator answers 0 exactly for equal texts.
pub compare_code_units_eq_iff : (s t : Text) → (compare_code_units s t ≡ Ordering.eq) ↔ (s ≡ t)
compare_code_units_eq_iff s t = (compare_eq s t, λ e. rw e (compare_self t))

-- `compareCodeUnits` is a total order: antisymmetric, transitive, and 0 only on equal texts.
pub compare_code_units-IsLawful : IsLawful compare_code_units
compare_code_units-IsLawful = record {
  flip = compare_flip;
  trans = compare_trans;
  congr = λ s t u h. rw (compare_eq s t h);
}
