-- ===== src/Json.antt =====
-- `JSON.stringify` of strings and numbers, which src/reader/packages.ts uses for its group keys.
mod Reader
pub mod Laws
use compact_multi_part_event.Prelude.{
  ℕ, zero, suc, ◌+◌, ◌/◌, ◌%◌, Bool, true, false, ◌&&◌, ◌||◌, List, [], ◌∷◌, ◌++◌, Text, decimal,
  ltb, leb, nat_eq, if◌then◌else◌,
}
use compact_multi_part_event.Bytes.{hex_digit}
use compact_multi_part_event.Utf8.{is_lead, is_trail}

-- `\uXXXX` in lower-case hex.
unfoldable pub unicode_escape : ℕ → Text
unicode_escape c =
    b'\\'
    ∷ b'u'
    ∷ (hex_digit (c / 0x1000)
        ++ (hex_digit (c / 0x100 % 16) ++ (hex_digit (c / 0x10 % 16) ++ hex_digit (c % 16))))

-- A code unit that is no half of a surrogate pair.
unfoldable pub escape_unit : ℕ → Text
escape_unit c =
    if nat_eq c b'"'
    then b'\\' ∷ b'"' ∷ []
    else if nat_eq c b'\\'
    then b'\\' ∷ b'\\' ∷ []
    else if nat_eq c 8
    then b'\\' ∷ b'b' ∷ []
    else if nat_eq c 9
    then b'\\' ∷ b't' ∷ []
    else if nat_eq c 10
    then b'\\' ∷ b'n' ∷ []
    else if nat_eq c 12
    then b'\\' ∷ b'f' ∷ []
    else if nat_eq c 13
    then b'\\' ∷ b'r' ∷ []
    else if ltb c 32 || (leb 0xD800 c && leb c 0xDFFF)
    then unicode_escape c
    else c ∷ []

unfoldable pub escape : Text → Text
escape [] = []
escape (c ∷ []) = escape_unit c
escape (c ∷ d ∷ s) =
    let pair = c ∷ d ∷ escape s in
    let single = escape_unit c ++ escape (d ∷ s) in if is_lead c && is_trail d then pair else single

unfoldable pub quote : Text → Text
quote s = b'"' ∷ escape s ++ b'"' ∷ []

-- An array of strings and, last, a number.
unfoldable pub stringify : List Text → ℕ → Text
stringify [] n = decimal n ++ b']' ∷ []
stringify (s ∷ ss) n = quote s ++ (b',' ∷ stringify ss n)
