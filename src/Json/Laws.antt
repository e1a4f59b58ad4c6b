-- ===== src/Json/Laws.antt =====
-- What `JSON.stringify` writes, read back: for the group key of src/reader/packages.ts.
use compact_multi_part_event.Prelude.{
  ℕ, zero, suc, ◌+◌, ◌/◌, ◌%◌, ◌≤◌, ◌<◌, ◌≡◌, refl, sym, ap, ◌∙◌, ◌&&◌, Option, some, List, [], ◌∷◌,
  ◌++◌, append_assoc, Text, decimal, decimal-injective, Bool-cases, inl, inr, All, arith, length,
}
use compact_multi_part_event.Bytes.{hex_digit}
use compact_multi_part_event.Bytes.Hex.{digit_value-hex_digit}
use compact_multi_part_event.Json.{unicode_escape, escape_unit, escape, quote, stringify}
use compact_multi_part_event.Json.Reader.{unit, unicode, escaped, token, read_literal}
use compact_multi_part_event.Utf8.{is_lead, is_trail}

abbrev pub IsUnit : ℕ → Type 0
IsUnit c = c < 65536

unicode-digits :
    (c : ℕ) (rest : Text)
    → c < 65536
    → unicode (
        hex_digit (c / 0x1000)
        ++ (hex_digit (c / 0x100 % 16)
            ++ (hex_digit (c / 0x10 % 16) ++ (hex_digit (c % 16) ++ rest))))
      ≡ unit c rest
unfolding unicode
unicode-digits c rest lt =
    let (h3, s3, v3, _) = digit_value-hex_digit (c % 16) rest (omega arith) in
    let (h2, s2, v2, _) = digit_value-hex_digit (c / 0x10 % 16) (h3 ∷ rest) (omega arith) in
    let (h1, s1, v1, _) = digit_value-hex_digit (c / 0x100 % 16) (h2 ∷ h3 ∷ rest) (omega arith) in
    let (h0, s0, v0, _) = digit_value-hex_digit (c / 0x1000) (h1 ∷ h2 ∷ h3 ∷ rest) (omega arith) in
    rw (s3, s2, s1, s0, unicode) (ap (λ n. unit n rest) (omega arith))

escaped-unicode : (c : ℕ) (rest : Text) → c < 65536 → token (unicode_escape c ++ rest) ≡ unit c rest
unfolding token escaped unicode_escape
escaped-unicode c rest lt = simp append_assoc (unicode-digits c rest lt)

token-escape_unit : (c : ℕ) (rest : Text) → c < 65536 → token (escape_unit c ++ rest) ≡ unit c rest
unfolding token escaped escape_unit
token-escape_unit c rest lt = ground (arith, escaped-unicode c rest lt)

token-surrogate : (c : ℕ) (rest : Text) → (0xD800 ≤ c) → token (c ∷ rest) ≡ unit c rest
unfolding token
token-surrogate c rest h = ground arith

read-unit :
    (f c : ℕ) (t rest s tail : Text)
    → token t ≡ unit c rest
    → read_literal f rest ≡ some (s, tail)
    → read_literal (suc f) t ≡ some (c ∷ s, tail)
unfolding read_literal
read-unit f c t rest s tail h k = rw (h, read_literal) (rw (k, read_literal))

read-escape :
    (s rest : Text) (f : ℕ)
    → length s < f
    → All IsUnit s
    → read_literal f (escape s ++ b'"' ∷ rest) ≡ some (s, rest)
unfolding read_literal token escape
read-escape s rest zero lt h = absurd (omega arith)
read-escape [] rest (suc f) lt h = refl
read-escape (c ∷ []) rest (suc zero) lt h = absurd (omega arith)
read-escape (c ∷ []) rest (suc (suc f)) lt h =
    read-unit (suc f) c (escape_unit c ++ b'"' ∷ rest) (b'"' ∷ rest) [] rest
      (token-escape_unit c (b'"' ∷ rest) h.0) refl
read-escape (c ∷ d ∷ s) rest (suc zero) lt h = absurd (omega arith)
read-escape (c ∷ d ∷ s) rest (suc (suc f)) lt h = elim (Bool-cases (is_lead c && is_trail d)) [
  | inl pair ↦
      rw (pair, escape)
        (read-unit (suc f) c (c ∷ d ∷ escape s ++ b'"' ∷ rest) (d ∷ escape s ++ b'"' ∷ rest) (d ∷ s)
          rest (token-surrogate c _ (ground arith))
          (read-unit f d (d ∷ escape s ++ b'"' ∷ rest) (escape s ++ b'"' ∷ rest) s rest
            (token-surrogate d _ (ground arith)) (read-escape s rest f (omega arith) h.1.1)))
  | inr single ↦
      rw (single, escape)
        (rw append_assoc (
          read-unit (suc f) c (escape_unit c ++ (escape (d ∷ s) ++ b'"' ∷ rest))
            (escape (d ∷ s) ++ b'"' ∷ rest) (d ∷ s) rest (token-escape_unit c _ h.0)
            (read-escape (d ∷ s) rest (suc f) (omega arith) h.1)))
]

-- Two literals followed by more text agree only if their contents and what follows agree.
quote-injective :
    (s t r q : Text) → All IsUnit s → All IsUnit t → quote s ++ r ≡ quote t ++ q → (s ≡ t) × (r ≡ q)
unfolding quote
quote-injective s t r q hs ht e =
    let f : ℕ = suc (length s + length t) in
    let opened : (escape s ++ b'"' ∷ []) ++ r ≡ (escape t ++ b'"' ∷ []) ++ q = cc in
    let inside : escape s ++ b'"' ∷ r ≡ escape t ++ b'"' ∷ q =
      cc (append_assoc (escape s) (b'"' ∷ []) r, append_assoc (escape t) (b'"' ∷ []) q) in
    let same : ◌≡◌ {A = Option (Text × Text)} (some (s, r)) (some (t, q)) =
      sym (read-escape s r f (omega arith) hs)
      ∙ ap (read_literal f) inside
      ∙ read-escape t q f (omega arith) ht in
    ground arith

snoc-injective : (s t : Text) (z : ℕ) → s ++ z ∷ [] ≡ t ++ z ∷ [] → s ≡ t
snoc-injective [] [] z e = refl
snoc-injective [] (d ∷ []) z e = cc
snoc-injective [] (d ∷ d' ∷ t) z e = cc
snoc-injective (c ∷ []) [] z e = cc
snoc-injective (c ∷ c' ∷ s) [] z e = cc
snoc-injective (c ∷ s) (d ∷ t) z e =
    let here : c ≡ d = cc in let later : s ≡ t = snoc-injective s t z (cc) in cc

-- Arrays of as many strings and a number are written alike only if they are the same.
pub stringify-injective :
    (ss ts : List Text) (m n : ℕ)
    → length ss ≡ length ts
    → All (All IsUnit) ss
    → All (All IsUnit) ts
    → stringify ss m ≡ stringify ts n
    → (ss ≡ ts) × (m ≡ n)
unfolding stringify
stringify-injective [] [] m n l hs ht e =
    (refl, decimal-injective m n (snoc-injective (decimal m) (decimal n) b']' e))
stringify-injective [] (t ∷ ts) m n l hs ht e = absurd (omega arith)
stringify-injective (s ∷ ss) [] m n l hs ht e = absurd (omega arith)
stringify-injective (s ∷ ss) (t ∷ ts) m n l (hs, hss) (ht, hts) e =
    let (here, rest) =
      quote-injective s t (b',' ∷ stringify ss m) (b',' ∷ stringify ts n) hs ht e in
    let (later, number) = stringify-injective ss ts m n (omega arith) hss hts (cc) in (cc, number)
