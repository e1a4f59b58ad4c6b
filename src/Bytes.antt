-- ===== src/Bytes.antt =====
-- src/reader/bytes.ts: byte comparison, hex, and code-unit order.
pub mod Hex
pub mod Order
use compact_multi_part_event.Prelude.{
  ℕ, zero, suc, ◌+◌, ◌-◌, ◌*◌, ◌/◌, ◌%◌, compare, Ordering, Bool, true, false, ◌&&◌, ◌||◌, List, [],
  ◌∷◌, ◌++◌, Text, Bytes, text, ltb, leb, nat_eq, if◌then◌else◌, length, get_or, every, Error,
  range_error, Result, ok, throw, guard, ◌>>=◌, ◌>>◌, or_else, String,
}

-- The loop over the indices of both arrays, which have one length.
unfoldable pub same_bytes : Bytes → Bytes → Bool
same_bytes (x ∷ xs) (y ∷ ys) = nat_eq x y && same_bytes xs ys
same_bytes [] ys = true
same_bytes (x ∷ xs) [] = true

unfoldable pub bytes_equal : Bytes → Bytes → Bool
bytes_equal left right =
    if nat_eq (length left) (length right) then same_bytes left right else false

-- `HEX_DIGITS[i]`; no code unit outside of 0..15.
unfoldable pub hex_digit : ℕ → Text
hex_digit i = if ltb i 10 then (48 + i) ∷ [] else if ltb i 16 then (87 + i) ∷ [] else []

unfoldable pub bytes_to_hex : Bytes → Text
bytes_to_hex [] = []
bytes_to_hex (byte ∷ bytes) = hex_digit (byte / 16) ++ (hex_digit (byte % 16) ++ bytes_to_hex bytes)

-- The character class `[0-9a-fA-F]`.
unfoldable pub is_hex_digit : ℕ → Bool
is_hex_digit c = (leb 48 c && leb c 57) || (leb 97 c && leb c 102) || (leb 65 c && leb c 70)

-- `Number.parseInt` of one hex digit.
unfoldable pub digit_value : ℕ → ℕ
digit_value c = if leb c 57 then c - 48 else if leb c 70 then c - 55 else c - 87

-- The loop of `hexToBytes`: two digits for each byte.
unfoldable pub decode_pairs : Text → Bytes
decode_pairs [] = []
decode_pairs (h ∷ []) = []
decode_pairs (h ∷ l ∷ rest) = (digit_value h * 16 + digit_value l) ∷ decode_pairs rest

unfoldable pub hex_to_bytes : Text → Result Bytes
hex_to_bytes hex = do
  guard (nat_eq (length hex % 2) 0) (range_error (text "hex string has odd length"))
  guard (every is_hex_digit hex) (range_error (text "hex string has non-hex characters"))
  ok (decode_pairs hex)

unfoldable pub compare_code_units : Text → Text → Ordering
compare_code_units [] [] = Ordering.eq
compare_code_units [] (c ∷ right) = Ordering.lt
compare_code_units (c ∷ left) [] = Ordering.gt
compare_code_units (c ∷ left) (d ∷ right) = or_else (compare c d) (compare_code_units left right)
