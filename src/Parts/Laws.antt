-- ===== src/Parts/Laws.antt =====
-- The parts of a payload, their widths and their number: src/publisher/parts.ts.
use compact_multi_part_event.Prelude.{
  ℕ, zero, suc, ◌+◌, ◌-◌, ◌*◌, ◌≤◌, ◌<◌, ◌≡◌, ◌≢◌, refl, sym, ap, ◌∙◌, List, [], ◌∷◌, ◌++◌,
  append-nil, append_assoc, Bytes, length, take, drop, concat, length-take, length-drop,
  take-append-drop, take_all, drop_all, drop-drop, replicate-append, All, ok, arith, dec_lt,
}
use compact_multi_part_event.Event.{zeros}
use compact_multi_part_event.Event.Widths.{length-overwrite, overwrite-zeros, zeros_eq}
use compact_multi_part_event.Parts.{part_length, part_count_for, part_at, parts_from, split_payload}

part_at-eq :
    (p : Bytes) (i : ℕ)
    → part_at p i
      ≡ take part_length (drop (i * part_length) p)
        ++ zeros (part_length - length (take part_length (drop (i * part_length) p)))
unfolding part_at
part_at-eq p i =
    let width : (i + 1) * part_length - i * part_length ≡ part_length = omega arith in
    rw width (
      overwrite-zeros part_length (take part_length (drop (i * part_length) p))
        (omega (arith, length-take part_length (drop (i * part_length) p))))

-- A padded chunk and the rest behind it.
chunk-append :
    (w m : ℕ) (q : Bytes)
    → (take w q ++ zeros (w - length (take w q))) ++ (drop w q ++ zeros (m - length (drop w q)))
      ≡ q ++ zeros (w + m - length q)
chunk-append w m q = elim (dec_lt (length q) w) [
  | yes short ↦
      rw (take_all w q (omega arith), drop_all w q (omega arith))
        (append_assoc q (zeros (w - length q)) (zeros (m - 0))
          ∙ ap (λ l. q ++ l)
              (replicate-append (w - length q) (m - 0) (w + m - length q) 0 (omega arith)))
  | no full ↦
      ap (λ l. l ++ (drop w q ++ zeros (m - length (drop w q))))
        (ap (λ l. take w q ++ l)
            (zeros_eq {m = w - length (take w q)} {n = 0} (omega (arith, length-take w q)))
          ∙ append-nil (take w q))
      ∙ sym (append_assoc (take w q) (drop w q) (zeros (m - length (drop w q))))
      ∙ ap (λ l. l ++ zeros (m - length (drop w q))) (take-append-drop w q)
      ∙ ap (λ l. q ++ l)
          (zeros_eq {m = m - length (drop w q)} {n = w + m - length q}
            (omega (arith, length-drop w q)))
]

-- The first `count` parts from `index` on hold the rest of the payload and zeros.
concat-parts_from :
    (p : Bytes) (index count : ℕ)
    → length p ≤ (index + count) * part_length
    → concat (parts_from p index count)
      ≡ drop (index * part_length) p
        ++ zeros (count * part_length - length (drop (index * part_length) p))
unfolding parts_from
concat-parts_from p index zero h = rw (drop_all (index * part_length) p (omega arith)) refl
concat-parts_from p index (suc count) h =
    let q = drop (index * part_length) p in
    let next : drop part_length q ≡ drop ((index + 1) * part_length) p =
      drop-drop part_length (index * part_length) ((index + 1) * part_length) p (omega arith) in
    rw (part_at-eq p index, concat-parts_from p (index + 1) count (omega arith), ← next)
      (chunk-append part_length (count * part_length) q
        ∙ ap (λ l. q ++ l)
            (zeros_eq {m = part_length + count * part_length - length q}
              {n = suc count * part_length - length q} (omega arith)))

length-parts_from : (p : Bytes) (index count : ℕ) → length (parts_from p index count) ≡ count
unfolding parts_from
length-parts_from p index zero = refl
length-parts_from p index (suc count) = ap suc (length-parts_from p (index + 1) count)

abbrev pub IsPart : Bytes → Type 0
IsPart part = length part ≡ part_length

parts_from-IsPart : (p : Bytes) (index count : ℕ) → All IsPart (parts_from p index count)
unfolding parts_from part_at
parts_from-IsPart p index zero = tt
parts_from-IsPart p index (suc count) =
    (length-overwrite (zeros part_length) 0 _, parts_from-IsPart p (index + 1) count)

pub record IsSplit (payload : Bytes) (parts : List Bytes) : Type 0 where
  pub widths : All IsPart parts
  pub nonempty : 1 ≤ length parts
  -- The fewest parts that hold the payload.
  pub fewest : length parts * part_length < length payload + part_length
  pub joined : concat parts ≡ payload ++ zeros (length parts * part_length - length payload)

split_payload_of_ne :
    (payload : Bytes)
    → payload ≢ []
    → split_payload payload ≡ ok (parts_from payload 0 (part_count_for (length payload)))
unfolding split_payload
split_payload_of_ne [] h = absurd (h refl)
split_payload_of_ne (b ∷ payload) h = ground arith

parts_from-IsSplit :
    (payload : Bytes)
    → payload ≢ []
    → IsSplit payload (parts_from payload 0 (part_count_for (length payload)))
parts_from-IsSplit [] h = absurd (h refl)
parts_from-IsSplit (b ∷ payload) h =
    let count = part_count_for (length (b ∷ payload)) in
    let number = length-parts_from (b ∷ payload) 0 count in
    record {
      widths = parts_from-IsPart (b ∷ payload) 0 count;
      nonempty = omega arith;
      fewest = omega arith;
      joined = rw number (concat-parts_from (b ∷ payload) 0 count (omega arith));
    }

-- splitPayload of a payload that is not empty returns parts of 256 bytes, at least one and no more
-- than are needed, which joined are the payload and zero padding.
pub split_payload-IsSplit :
    (payload : Bytes)
    → payload ≢ []
    → (parts : List Bytes) × (split_payload payload ≡ ok parts) × IsSplit payload parts
split_payload-IsSplit payload h = (_, split_payload_of_ne payload h, parts_from-IsSplit payload h)
