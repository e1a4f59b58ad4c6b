-- ===== src/Prelude/Digits.antt =====
-- `String(n)` of a natural number: its decimal digits.
use Prim.Native.Nat.{ℕ, zero, suc, ◌+◌, ◌-◌, ◌*◌, ◌/◌, ◌%◌, ◌≤◌, ◌<◌}
use mathlib.Core.Path.{◌≡◌, refl, sym, ap, ◌∙◌}
use mathlib.Core.Logic.{inl, inr}
use mathlib.Core.List.{[], ◌∷◌, ◌++◌}
use native.Mathlib.Omega.{arith}
use compact_multi_part_event.Prelude.Tests.{ltb, if◌then◌else◌, Bool-cases}
use compact_multi_part_event.Prelude.Lists.{All, All-append}
use compact_multi_part_event.Prelude.Results.{Text}

-- The fuel bounds the number of digits.
decimal_from : ℕ → ℕ → Text
decimal_from zero n = []
decimal_from (suc f) n =
    let higher = decimal_from f (n / 10) ++ (48 + n % 10) ∷ [] in
    if ltb n 10 then (48 + n) ∷ [] else higher

unfoldable pub decimal : ℕ → Text
unfolding decimal_from
decimal n = decimal_from (suc n) n

-- The number that a text of digits stands for.
abbrev read_from : ℕ → Text → ℕ
read_from acc [] = acc
read_from acc (d ∷ ds) = read_from (acc * 10 + (d - 48)) ds

read_from-append :
    (acc : ℕ) (ds : Text) (d : ℕ) → read_from acc (ds ++ d ∷ []) ≡ read_from acc ds * 10 + (d - 48)
read_from-append acc [] d = refl
read_from-append acc (c ∷ ds) d = read_from-append (acc * 10 + (c - 48)) ds d

read-decimal_from : (f n : ℕ) → n < f → read_from 0 (decimal_from f n) ≡ n
unfolding decimal_from
read-decimal_from zero n h = elim h [ ]
read-decimal_from (suc f) n h = elim (Bool-cases (ltb n 10)) [
  | inl one ↦ rw one (omega arith)
  | inr many ↦ rw (many, read_from-append) (ground (arith, read-decimal_from f (n / 10)))
]

pub decimal-injective : (m n : ℕ) → decimal m ≡ decimal n → m ≡ n
unfolding decimal
decimal-injective m n e =
    sym (read-decimal_from (suc m) m (omega arith))
    ∙ ap (read_from 0) e
    ∙ read-decimal_from (suc n) n (omega arith)

abbrev pub IsDigit : ℕ → Type 0
IsDigit d = (48 ≤ d) × (d ≤ 57)

decimal_from-IsDigit : (f n : ℕ) → All IsDigit (decimal_from f n)
unfolding decimal_from
decimal_from-IsDigit zero n = tt
decimal_from-IsDigit (suc f) n = elim (Bool-cases (ltb n 10)) [
  | inl one ↦ rw one (ground arith)
  | inr many ↦ rw many (
      All-append IsDigit (decimal_from f (n / 10)) _ (decimal_from-IsDigit f (n / 10))
        (omega arith))
]

pub decimal-IsDigit : (n : ℕ) → All IsDigit (decimal n)
unfolding decimal
decimal-IsDigit n = decimal_from-IsDigit (suc n) n
