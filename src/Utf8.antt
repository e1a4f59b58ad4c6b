-- ===== src/Utf8.antt =====
-- `TextEncoder` and `TextDecoder`, which src/reader/event.ts and src/reader/transaction.ts use:
-- UTF-8 between a JavaScript string (UTF-16 code units) and bytes.
use compact_multi_part_event.Prelude.{
  ℕ, ◌+◌, ◌-◌, ◌*◌, ◌/◌, ◌%◌, Bool, ◌&&◌, [], ◌∷◌, ◌++◌, Text, Bytes, ltb, leb, nat_eq,
  if◌then◌else◌,
}

abbrev pub is_lead : ℕ → Bool
is_lead c = leb 0xD800 c && leb c 0xDBFF

abbrev pub is_trail : ℕ → Bool
is_trail c = leb 0xDC00 c && leb c 0xDFFF

-- The bytes of one code point; a surrogate on its own is encoded as U+FFFD.
unfoldable pub encode_point : ℕ → Bytes
encode_point c =
    if ltb c 0x80
    then c ∷ []
    else if ltb c 0x800
    then (0xC0 + c / 0x40) ∷ (0x80 + c % 0x40) ∷ []
    else if leb 0xD800 c && leb c 0xDFFF
    then 0xEF ∷ 0xBF ∷ 0xBD ∷ []
    else if ltb c 0x10000
    then (0xE0 + c / 0x1000) ∷ (0x80 + c / 0x40 % 0x40) ∷ (0x80 + c % 0x40) ∷ []
    else (0xF0 + c / 0x40000)
      ∷ (0x80 + c / 0x1000 % 0x40)
      ∷ (0x80 + c / 0x40 % 0x40)
      ∷ (0x80 + c % 0x40)
      ∷ []

unfoldable pub utf8_encode : Text → Bytes
utf8_encode [] = []
utf8_encode (c ∷ []) = encode_point c
utf8_encode (c ∷ d ∷ s) =
    let single = encode_point c ++ utf8_encode (d ∷ s) in
    let pair = encode_point (0x10000 + (c - 0xD800) * 0x400 + (d - 0xDC00)) ++ utf8_encode s in
    if is_lead c && is_trail d then pair else single

-- The decoder's variables: the code point so far, the bytes still needed, and the range in which
-- the next byte must lie.
pub record Decoder : Type 0 where
  pub point : ℕ
  pub needed : ℕ
  pub lower : ℕ
  pub upper : ℕ

abbrev pub start : Decoder
start = record { point = 0; needed = 0; lower = 0x80; upper = 0xBF }

abbrev pub units : ℕ → Text
units c =
    if ltb c 0x10000
    then c ∷ []
    else (0xD800 + (c - 0x10000) / 0x400) ∷ (0xDC00 + (c - 0x10000) % 0x400) ∷ []

-- A byte where a character begins.
unfoldable pub first_byte : ℕ → Text × Decoder
first_byte b =
    if ltb b 0x80
    then (b ∷ [], start)
    else if leb 0xC2 b && leb b 0xDF
    then ([], record { point = b - 0xC0; needed = 1; lower = 0x80; upper = 0xBF })
    else if leb 0xE0 b && leb b 0xEF
    then (
      [],
      record {
        point = b - 0xE0;
        needed = 2;
        lower = if nat_eq b 0xE0 then 0xA0 else 0x80;
        upper = if nat_eq b 0xED then 0x9F else 0xBF;
      },
    )
    else if leb 0xF0 b && leb b 0xF4
    then (
      [],
      record {
        point = b - 0xF0;
        needed = 3;
        lower = if nat_eq b 0xF0 then 0x90 else 0x80;
        upper = if nat_eq b 0xF4 then 0x8F else 0xBF;
      },
    )
    else (0xFFFD ∷ [], start)

unfoldable pub decode_byte : Decoder → ℕ → Text × Decoder
decode_byte s b =
    if nat_eq s.needed 0
    then first_byte b
    else if leb s.lower b && leb b s.upper
    then if nat_eq s.needed 1 then (units (s.point * 0x40 + (b - 0x80)), start) else (
      [],
      record {
        point = s.point * 0x40 + (b - 0x80);
        needed = s.needed - 1;
        lower = 0x80;
        upper = 0xBF;
      },
    )
    else (0xFFFD ∷ (first_byte b).0, (first_byte b).1)

unfoldable pub decode_from : Decoder → Bytes → Text
decode_from s [] = if nat_eq s.needed 0 then [] else 0xFFFD ∷ []
decode_from s (b ∷ bytes) = let (out, s') = decode_byte s b in out ++ decode_from s' bytes

-- A byte order mark at the start is dropped.
unfoldable pub drop_mark : Bytes → Bytes
drop_mark (a ∷ b ∷ c ∷ rest) =
    if nat_eq a 0xEF && nat_eq b 0xBB && nat_eq c 0xBF then rest else a ∷ b ∷ c ∷ rest
drop_mark bytes = bytes

unfoldable pub utf8_decode : Bytes → Text
utf8_decode bytes = decode_from start (drop_mark bytes)
