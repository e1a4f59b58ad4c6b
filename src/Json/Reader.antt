-- ===== src/Json/Reader.antt =====
-- A reader of JSON string literals, for the proof that `JSON.stringify` loses nothing: it starts
-- behind the opening quote and returns the code units and what follows the closing quote.
use compact_multi_part_event.Prelude.{
  ℕ, zero, suc, ◌+◌, ◌*◌, Option, none, some, [], ◌∷◌, Text, nat_eq, if◌then◌else◌,
}
use compact_multi_part_event.Bytes.{digit_value}

pub data Token : Type 0 where
  unit : ℕ → Text → Token
  closed : Text → Token
  broken : Token

abbrev pub plain_escape : ℕ → ℕ
plain_escape e =
    if nat_eq e b'b'
    then 8
    else if nat_eq e b't'
    then 9
    else if nat_eq e b'n'
    then 10
    else if nat_eq e b'f'
    then 12
    else if nat_eq e b'r'
    then 13
    else e

-- Behind `\u`.
unfoldable pub unicode : Text → Token
unicode (a ∷ b ∷ c ∷ d ∷ rest) =
    unit (digit_value a * 0x1000 + digit_value b * 0x100 + digit_value c * 0x10 + digit_value d)
      rest
unicode _ = broken

-- Behind a backslash.
unfoldable pub escaped : Text → Token
escaped [] = broken
escaped (e ∷ rest) = if nat_eq e b'u' then unicode rest else unit (plain_escape e) rest

unfoldable pub token : Text → Token
token [] = broken
token (c ∷ rest) =
    if nat_eq c b'"' then closed rest else if nat_eq c b'\\' then escaped rest else unit c rest

abbrev pub cons_unit : ℕ → Option (Text × Text) → Option (Text × Text)
cons_unit c none = none
cons_unit c (some (s, rest)) = some (c ∷ s, rest)

-- The fuel bounds the number of tokens.
unfoldable pub read_literal : ℕ → Text → Option (Text × Text)
read_literal zero t = none
read_literal (suc f) t = elim (token t) [
  | unit c rest ↦ cons_unit c (read_literal f rest)
  | closed rest ↦ some ([], rest)
  | broken ↦ none
]
