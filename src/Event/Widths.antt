-- ===== src/Event/Widths.antt =====
-- Restoring the widths that the ledger trims: src/reader/event.ts.
use compact_multi_part_event.Prelude.{
  ℕ, zero, suc, ◌+◌, ◌-◌, ◌≤◌, ◌<◌, ◌≡◌, ◌≢◌, refl, sym, ap, ◌∙◌, true, false, ◌&&◌, [], ◌∷◌, ◌++◌,
  append-nil, append_assoc, Bytes, nat_eq, leb, length, take, drop, length-append, length-take,
  length-drop, length-replicate, take-append-drop, take-append, drop-append, take_all, drop_all,
  All, All-take, All-drop, ok, arith, inl, inr, Bool-cases, dec_lt, ltb, min,
}
use compact_multi_part_event.Bytes.{bytes_to_hex}
use compact_multi_part_event.Bytes.Hex.{IsByte, hex_to_bytes-bytes_to_hex}
use compact_multi_part_event.Event.{
  name_length, payload_length, event_length, overwrite, zeros, trim_zeros, restore_event_value,
  split_event_value, event_value, restore_indexer_misc_event,
}

pub length-overwrite : (b : Bytes) (k : ℕ) (s : Bytes) → length (overwrite b k s) ≡ length b
unfolding overwrite
length-overwrite [] k s = refl
length-overwrite (c ∷ b) (suc k) s = ap suc (length-overwrite b k s)
length-overwrite (c ∷ b) zero [] = refl
length-overwrite (c ∷ b) zero (d ∷ s) = ap suc (length-overwrite b zero s)

-- A source that fits replaces a stretch of its own length.
pub overwrite_start : (b s : Bytes) → length s ≤ length b → overwrite b 0 s ≡ s ++ drop (length s) b
unfolding overwrite
overwrite_start [] [] h = refl
overwrite_start [] (d ∷ s) h = absurd (omega arith)
overwrite_start (c ∷ b) [] h = refl
overwrite_start (c ∷ b) (d ∷ s) h = ap (λ l. d ∷ l) (overwrite_start b s (omega arith))

pub overwrite-append :
    (xs b s : Bytes) (k : ℕ) → k ≡ length xs → overwrite (xs ++ b) k s ≡ xs ++ overwrite b 0 s
unfolding overwrite
overwrite-append [] b s zero h = refl
overwrite-append [] b s (suc k) h = absurd (omega arith)
overwrite-append (x ∷ xs) b s zero h = absurd (omega arith)
overwrite-append (x ∷ xs) b s (suc k) h = ap (λ l. x ∷ l) (overwrite-append xs b s k (omega arith))

pub length-zeros : (n : ℕ) → length (zeros n) ≡ n
length-zeros n = length-replicate n 0

pub zeros_eq : {m n : ℕ} → m ≡ n → zeros m ≡ zeros n
zeros_eq e = ap zeros e

drop-zeros : (k n : ℕ) → drop k (zeros n) ≡ zeros (n - k)
drop-zeros zero n = zeros_eq {m = n} {n = n - 0} (omega arith)
drop-zeros (suc k) zero = zeros_eq {m = 0} {n = 0 - suc k} (omega arith)
drop-zeros (suc k) (suc n) = drop-zeros k n ∙ zeros_eq {m = n - k} {n = suc n - suc k} (omega arith)

-- `new Uint8Array(n)` with a source set at its start: the source, padded with zeros.
pub overwrite-zeros :
    (n : ℕ) (s : Bytes) → length s ≤ n → overwrite (zeros n) 0 s ≡ s ++ zeros (n - length s)
overwrite-zeros n s h =
    overwrite_start (zeros n) s (omega (arith, length-zeros n))
    ∙ ap (λ l. s ++ l) (drop-zeros (length s) n)

-- What trimming removes is zeros.
trim_zeros-split : (v : Bytes) → (k : ℕ) × (v ≡ trim_zeros v ++ zeros k)
unfolding trim_zeros
trim_zeros-split [] = (0, refl)
trim_zeros-split (b ∷ v) = rest (trim_zeros v) refl (trim_zeros-split v)
  where
    rest :
        (t : Bytes)
        → trim_zeros v ≡ t
        → (k : ℕ) × (v ≡ trim_zeros v ++ zeros k)
        → (k : ℕ) × (b ∷ v ≡ trim_zeros (b ∷ v) ++ zeros k)
    rest [] e (k, h) = elim (Bool-cases (nat_eq b 0)) [
      | inl z ↦ (suc k, ground arith)
      | inr nz ↦ (k, ground arith)
    ]
    rest (c ∷ t) e (k, h) = (k, ground arith)

module _ (v full : Bytes) (k : ℕ) (split : full ≡ v ++ zeros k) where
  -- A value of which trailing zeros have been removed is restored to its 288 bytes.
  restore_of_split : length full ≡ event_length → restore_event_value v ≡ ok full
  unfolding restore_event_value
  restore_of_split h =
      let lengths : length full ≡ length v + k =
        ap length split ∙ length-append v (zeros k) ∙ omega (arith, length-zeros k) in
      let fits : leb (length v) event_length ≡ true = ground arith in
      rw (fits, overwrite-zeros event_length v (omega arith))
        (let same : event_length - length v ≡ k = omega arith in rw same (ap ok (sym split)))

-- A 288-byte value is restored from what is left when its trailing zeros are trimmed.
pub restore-trim : (v : Bytes) → length v ≡ event_length → restore_event_value (trim_zeros v) ≡ ok v
restore-trim v h =
    let (k, split) = trim_zeros-split v in restore_of_split (trim_zeros v) v k split h

-- The value of a 32-byte name and a 256-byte payload is the one behind the other.
pub event_value_full :
    (name payload : Bytes)
    → length name ≡ name_length
    → length payload ≡ payload_length
    → event_value name payload ≡ ok (name ++ payload)
unfolding event_value
event_value_full name payload hn hp =
    let fits : leb (length name) name_length ≡ true = ground arith in
    let fits' : leb (length payload) payload_length ≡ true = ground arith in
    rw (fits, fits')
      (ap ok (
        ap (λ b. overwrite b name_length payload) (overwrite-zeros event_length name (omega arith))
        ∙ overwrite-append name (zeros (event_length - length name)) payload name_length (sym hn)
        ∙ ap (λ l. name ++ l)
            (overwrite-zeros (event_length - length name) payload (omega arith)
              ∙ padded (event_length - length name - length payload) (omega arith))))
  where
    padded : (k : ℕ) → k ≡ 0 → payload ++ zeros k ≡ payload
    padded k e = rw e (append-nil payload)

split_event_value_of :
    (v full : Bytes)
    → restore_event_value v ≡ ok full
    → split_event_value v
      ≡ ok (record { name = take name_length full; payload = drop name_length full })
unfolding split_event_value
split_event_value_of v full e = rw (e, split_event_value)

-- The value of a 32-byte name and a 256-byte payload, with its trailing zeros trimmed, splits into
-- that name and payload.
pub split-trim-event_value :
    (name payload v : Bytes)
    → length name ≡ name_length
    → length payload ≡ payload_length
    → event_value name payload ≡ ok v
    → split_event_value (trim_zeros v) ≡ ok (record { name = name; payload = payload })
split-trim-event_value name payload v hn hp e =
    let same : v ≡ name ++ payload = cc (event_value_full name payload hn hp) in
    let wide : length v ≡ event_length = rw same (length-append name payload ∙ omega arith) in
    split_event_value_of (trim_zeros v) v (restore-trim v wide)
    ∙ rw (
      same,
      take-append name_length name payload (sym hn),
      drop-append name_length name payload (sym hn),
    )

overwrite_nothing : (b : Bytes) (k : ℕ) → overwrite b k [] ≡ b
unfolding overwrite
overwrite_nothing [] k = refl
overwrite_nothing (c ∷ b) zero = refl
overwrite_nothing (c ∷ b) (suc k) = ap (λ l. c ∷ l) (overwrite_nothing b k)

module _ (w m : ℕ) (a b : Bytes) where
  -- Two sources, the second right behind the first.
  overwrite_both :
      length a ≡ m
      → m + length b ≤ w
      → overwrite (overwrite (zeros w) 0 a) m b ≡ a ++ b ++ zeros (w - length (a ++ b))
  overwrite_both h fits =
      ap (λ l. overwrite l m b) (overwrite-zeros w a (omega arith))
      ∙ overwrite-append a (zeros (w - length a)) b m (sym h)
      ∙ ap (λ l. a ++ l) (overwrite-zeros (w - length a) b (omega arith))
      ∙ sym (append_assoc a b (zeros (w - length a - length b)))
      ∙ ap (λ l. a ++ b ++ l)
          (zeros_eq {m = w - length a - length b} {n = w - length (a ++ b)}
            (omega (arith, length-append a b)))

  -- A short first source and an empty second one.
  overwrite_one :
      length a ≤ w → b ≡ [] → overwrite (overwrite (zeros w) 0 a) m b ≡ a ++ zeros (w - length a)
  overwrite_one fits e =
      rw e (overwrite_nothing (overwrite (zeros w) 0 a) m ∙ overwrite-zeros w a fits)

-- The two fields of a value of at most `w` bytes, set into `w` bytes, are the value with zeros.
overwrite_fields :
    (w m : ℕ) (v : Bytes)
    → length v ≤ w
    → m ≤ w
    → overwrite (overwrite (zeros w) 0 (take m v)) m (drop m v) ≡ v ++ zeros (w - length v)
overwrite_fields w m v h k = elim (dec_lt (length v) m) [
  | yes short ↦
      rw (take_all m v (omega arith), drop_all m v (omega arith)) (overwrite_one w m v [] h refl)
  | no wide ↦
      overwrite_both w m (take m v) (drop m v) (omega (arith, length-take m v))
        (omega (arith, length-drop m v))
      ∙ rw (take-append-drop m v) refl
]

event_value-fields :
    (v : Bytes)
    → length v ≤ event_length
    → event_value (take name_length v) (drop name_length v)
      ≡ ok (v ++ zeros (event_length - length v))
unfolding event_value
event_value-fields v h =
    let short : length (take name_length v) ≤ name_length =
      omega (arith, length-take name_length v) in
    let rest : length (drop name_length v) ≤ payload_length =
      omega (arith, length-drop name_length v) in
    let fits : leb (length (take name_length v)) name_length ≡ true = ground arith in
    let fits' : leb (length (drop name_length v)) payload_length ≡ true = ground arith in
    rw (fits, fits') (ap ok (overwrite_fields event_length name_length v h (omega arith)))

split_event_value_full :
    (full : Bytes)
    → length full ≡ event_length
    → split_event_value full
      ≡ ok (record { name = take name_length full; payload = drop name_length full })
split_event_value_full full h =
    split_event_value_of full full (restore_of_split full full 0 (sym (append-nil full)) h)

length-pos : (v : Bytes) → v ≢ [] → 0 < length v
length-pos [] h = absurd (h refl)
length-pos (b ∷ v) h = omega arith

-- The indexer's two hex fields of a value, whether it padded the value back before it split it or
-- split the trimmed value: any 288-byte value whose trailing zeros are in part removed is restored
-- to its name and payload, unless nothing is left of it.
pub restore_indexer_misc_event_complete :
    (v : Bytes) (k : ℕ)
    → All IsByte v
    → length v + k ≡ event_length
    → v ≢ []
    → restore_indexer_misc_event (record {
      name = bytes_to_hex (take name_length v);
      payload = bytes_to_hex (drop name_length v);
    })
      ≡ ok (record {
        name = take name_length (v ++ zeros k);
        payload = drop name_length (v ++ zeros k);
      })
unfolding restore_indexer_misc_event
restore_indexer_misc_event_complete v k bytes wide some_bytes =
    let full = v ++ zeros k in
    let wide_full : length full ≡ event_length =
      length-append v (zeros k) ∙ omega (arith, length-zeros k) in
    let first : length (take name_length v) ≡ min name_length (length v) =
      length-take name_length v in
    let rest : length (drop name_length v) ≡ length v - name_length = length-drop name_length v in
    let pos : 0 < length v = length-pos v some_bytes in
    let padding : event_length - length v ≡ k = omega arith in
    let named : nat_eq (length (take name_length v)) 0 ≡ false = ground arith in
    let fits : leb (length (take name_length v)) name_length ≡ true = ground arith in
    let fits' : leb (length (drop name_length v)) payload_length ≡ true = ground arith in
    let ordered : (ltb (length (take name_length v)) name_length
          && ltb 0 (length (drop name_length v)))
        ≡ false =
      ground arith in
    rw
      (
        hex_to_bytes-bytes_to_hex (take name_length v) (All-take IsByte name_length v bytes),
        hex_to_bytes-bytes_to_hex (drop name_length v) (All-drop IsByte name_length v bytes),
        named,
        fits,
        fits',
        ordered,
        event_value-fields v (omega arith),
        padding,
      )
      (split_event_value_full full wide_full)
