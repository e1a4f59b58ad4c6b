-- ===== src/Packages/Payload.antt =====
-- The merged payload and the parts it is made of: src/reader/packages.ts.
use compact_multi_part_event.Prelude.{
  ℕ, ◌+◌, ◌-◌, ◌*◌, ◌≡◌, refl, sym, ap, ◌∙◌, List, [], ◌∷◌, ◌++◌, append_assoc, Bytes, length,
  concat, length-append, All, arith,
}
use compact_multi_part_event.Event.{overwrite, zeros}
use compact_multi_part_event.Event.Widths.{overwrite-zeros, overwrite-append, zeros_eq}
use compact_multi_part_event.Packages.Evaluate.{fill_payload, merge_parts}
use compact_multi_part_event.Parts.Laws.{IsPart}

module _ (xs part : Bytes) (index r : ℕ) where
  overwrite_next :
      length xs ≡ index * 256
      → length part ≡ 256
      → overwrite (xs ++ zeros (256 + r * 256)) (index * length part) part
        ≡ (xs ++ part) ++ zeros (r * 256)
  overwrite_next h p =
      overwrite-append xs (zeros (256 + r * 256)) part (index * length part) (rw p (sym h))
      ∙ ap (λ l. xs ++ l)
          (overwrite-zeros (256 + r * 256) part (omega arith)
            ∙ ap (λ l. part ++ l)
                (zeros_eq {m = 256 + r * 256 - length part} {n = r * 256} (omega arith)))
      ∙ sym (append_assoc xs part (zeros (r * 256)))

fill_payload-eq :
    (xs : Bytes) (index : ℕ) (parts : List Bytes)
    → length xs ≡ index * 256
    → All IsPart parts
    → fill_payload (xs ++ zeros (length parts * 256)) index parts ≡ xs ++ concat parts
unfolding fill_payload
fill_payload-eq xs index [] h w = refl
fill_payload-eq xs index (part ∷ parts) h (p, w) =
    let more : zeros (length (part ∷ parts) * 256) ≡ zeros (256 + length parts * 256) =
      zeros_eq {m = length (part ∷ parts) * 256} {n = 256 + length parts * 256} (omega arith) in
    ap (λ z. fill_payload (overwrite (xs ++ z) (index * length part) part) (index + 1) parts) more
    ∙ ap (λ b. fill_payload b (index + 1) parts) (overwrite_next xs part index (length parts) h p)
    ∙ fill_payload-eq (xs ++ part) (index + 1) parts (length-append xs part ∙ omega arith) w
    ∙ append_assoc xs part (concat parts)

-- Setting each 256-byte part at its index times 256 gives the parts one behind the other.
pub merge_parts-concat : (parts : List Bytes) → All IsPart parts → merge_parts parts ≡ concat parts
unfolding merge_parts
merge_parts-concat parts w = fill_payload-eq [] 0 parts (omega arith) w
