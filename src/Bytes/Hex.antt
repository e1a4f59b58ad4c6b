-- ===== src/Bytes/Hex.antt =====
-- Hex, encoded and decoded: src/reader/bytes.ts.
use compact_multi_part_event.Prelude
use compact_multi_part_event.Prelude.{
  ℕ, zero, suc, ◌+◌, ◌-◌, ◌*◌, ◌/◌, ◌%◌, ◌≤◌, ◌<◌, ◌≡◌, refl, sym, ap, ◌∙◌, ◌↔◌, Bool, true, false,
  ◌&&◌, List, [], ◌∷◌, ◌++◌, append_assoc, Text, Bytes, text, nat_eq, length, every, All, Result,
  ok, throw, arith, Bool-cases, inl, inr, guard-eq-ok, range_error, nat_eq_iff,
}
use compact_multi_part_event.Bytes.{
  hex_digit, bytes_to_hex, is_hex_digit, digit_value, decode_pairs, hex_to_bytes,
}

abbrev pub IsByte : ℕ → Type 0
IsByte b = b < 256

pub digit_value-hex_digit :
    (h : ℕ) (rest : Text)
    → h < 16
    → (c : ℕ) × (hex_digit h ++ rest ≡ c ∷ rest) × (digit_value c ≡ h) × (is_hex_digit c ≡ true)
unfolding digit_value hex_digit is_hex_digit
digit_value-hex_digit h rest lt = elim (Bool-cases (Prelude.ltb h 10)) [
  | inl low ↦ (48 + h, ground arith, ground arith, ground arith)
  | inr high ↦ (87 + h, ground arith, ground arith, ground arith)
]

-- The two digits of a byte.
record IsPair (b : ℕ) (rest : Text) : Type 0 where
  high : ℕ
  low : ℕ
  shown : hex_digit (b / 16) ++ (hex_digit (b % 16) ++ rest) ≡ high ∷ low ∷ rest
  value : digit_value high * 16 + digit_value low ≡ b
  high_digit : is_hex_digit high ≡ true
  low_digit : is_hex_digit low ≡ true

byte-IsPair : (b : ℕ) (rest : Text) → b < 256 → IsPair b rest
byte-IsPair b rest lt =
    let (l, l_shown, l_value, l_digit) = digit_value-hex_digit (b % 16) rest (omega arith) in
    let (h, h_shown, h_value, h_digit) =
      digit_value-hex_digit (b / 16) (hex_digit (b % 16) ++ rest) (omega arith) in
    record {
      high = h;
      low = l;
      shown = h_shown ∙ ap (λ t. h ∷ t) l_shown;
      value = omega arith;
      high_digit = h_digit;
      low_digit = l_digit;
    }

decode_pairs-bytes_to_hex : (bs : Bytes) → All IsByte bs → decode_pairs (bytes_to_hex bs) ≡ bs
unfolding decode_pairs bytes_to_hex
decode_pairs-bytes_to_hex [] h = refl
decode_pairs-bytes_to_hex (b ∷ bs) (lt, h) =
    let p = byte-IsPair b (bytes_to_hex bs) lt in
    rw (p.shown, decode_pairs) (cc (p.value, decode_pairs-bytes_to_hex bs h))

digits-bytes_to_hex : (bs : Bytes) → All IsByte bs → every is_hex_digit (bytes_to_hex bs) ≡ true
unfolding bytes_to_hex
digits-bytes_to_hex [] h = refl
digits-bytes_to_hex (b ∷ bs) (lt, h) =
    let p = byte-IsPair b (bytes_to_hex bs) lt in
    rw p.shown (rw (p.high_digit, p.low_digit) (digits-bytes_to_hex bs h))

pub length-bytes_to_hex : (bs : Bytes) → All IsByte bs → length (bytes_to_hex bs) ≡ 2 * length bs
unfolding bytes_to_hex
length-bytes_to_hex [] h = refl
length-bytes_to_hex (b ∷ bs) (lt, h) =
    let p = byte-IsPair b (bytes_to_hex bs) lt in
    rw p.shown (omega (arith, length-bytes_to_hex bs h))

-- Bytes are read back from their hex.
pub hex_to_bytes-bytes_to_hex :
    (bs : Bytes) → All IsByte bs → hex_to_bytes (bytes_to_hex bs) ≡ ok bs
unfolding hex_to_bytes
hex_to_bytes-bytes_to_hex bs h =
    let even : nat_eq (length (bytes_to_hex bs) % 2) 0 ≡ true =
      ground (arith, length-bytes_to_hex bs h) in
    rw (even, digits-bytes_to_hex bs h) (ap ok (decode_pairs-bytes_to_hex bs h))

-- So two byte strings with the same hex are the same.
pub bytes_to_hex-injective :
    (cs bs : Bytes) → All IsByte cs → All IsByte bs → bytes_to_hex cs ≡ bytes_to_hex bs → cs ≡ bs
bytes_to_hex-injective cs bs ha hb e =
    sym (decode_pairs-bytes_to_hex cs ha) ∙ ap decode_pairs e ∙ decode_pairs-bytes_to_hex bs hb

length-decode_pairs : (t : Text) → length t % 2 ≡ 0 → 2 * length (decode_pairs t) ≡ length t
unfolding decode_pairs
length-decode_pairs [] h = refl
length-decode_pairs (c ∷ []) h = omega arith
length-decode_pairs (c ∷ d ∷ t) h = omega (arith, length-decode_pairs t (omega arith))

digit_value-lt : (c : ℕ) → is_hex_digit c ≡ true → digit_value c < 16
unfolding digit_value is_hex_digit
digit_value-lt c h = ground arith

decode_pairs-IsByte : (t : Text) → every is_hex_digit t ≡ true → All IsByte (decode_pairs t)
unfolding decode_pairs
decode_pairs-IsByte [] h = tt
decode_pairs-IsByte (c ∷ []) h = tt
decode_pairs-IsByte (c ∷ d ∷ t) h =
    ground (arith, digit_value-lt c, digit_value-lt d, decode_pairs-IsByte t)

-- Text that is read as hex has two hex digits for each byte read, and what is read are bytes.
pub hex_to_bytes_sound :
    (t : Text) (bs : Bytes)
    → hex_to_bytes t ≡ ok bs
    → (length t ≡ 2 * length bs) × (every is_hex_digit t ≡ true) × All IsByte bs
unfolding hex_to_bytes
hex_to_bytes_sound t bs e =
    let (even, e') =
      guard-eq-ok (nat_eq (length t % 2) 0) (range_error (text "hex string has odd length")) _ e in
    let (digits, e'') =
      guard-eq-ok (every is_hex_digit t) (range_error (text "hex string has non-hex characters")) _
        e' in
    let same : decode_pairs t ≡ bs = cc in
    rw (← same)
      (sym (length-decode_pairs t ((nat_eq_iff _ _).0 even)), digits, decode_pairs-IsByte t digits)

-- Hex is text.
pub bytes_to_hex-IsUnit : (bs : Bytes) → All IsByte bs → All (λ c. c < 65536) (bytes_to_hex bs)
unfolding bytes_to_hex is_hex_digit
bytes_to_hex-IsUnit [] h = tt
bytes_to_hex-IsUnit (b ∷ bs) (lt, h) =
    let p = byte-IsPair b (bytes_to_hex bs) lt in
    rw p.shown
      (hex_digit-lt p.high p.high_digit, (hex_digit-lt p.low p.low_digit, bytes_to_hex-IsUnit bs h))
  where
    hex_digit-lt : (c : ℕ) → is_hex_digit c ≡ true → c < 65536
    hex_digit-lt c e = ground arith
