-- ===== src/Parts.antt =====
-- src/publisher/parts.ts: a payload cut into 256-byte parts, the last one padded with zeros.
pub mod Laws
use compact_multi_part_event.Prelude.{
  ℕ, zero, suc, ◌+◌, ◌-◌, ◌*◌, ◌/◌, List, [], ◌∷◌, Bytes, text, nat_eq, length, take, drop, not,
  Error, range_error, Result, ok, throw, guard, ◌>>=◌, ◌>>◌,
}
use compact_multi_part_event.Event.{payload_length, overwrite, zeros}

abbrev pub part_length : ℕ
part_length = payload_length

-- `Math.ceil(length / PART_LENGTH)`.
abbrev pub part_count_for : ℕ → ℕ
part_count_for length = (length + (part_length - 1)) / part_length

-- `subarray(start, end)`.
abbrev pub subarray : Bytes → ℕ → ℕ → Bytes
subarray bytes start end = take (end - start) (drop start bytes)

-- The callback of `Array.from`.
unfoldable pub part_at : Bytes → ℕ → Bytes
part_at payload index =
    overwrite (zeros part_length) 0
      (subarray payload (index * part_length) ((index + 1) * part_length))

-- The indices `index`, `index + 1`, … of the `count` parts that are left.
unfoldable pub parts_from : Bytes → ℕ → ℕ → List Bytes
parts_from payload index zero = []
parts_from payload index (suc count) = part_at payload index ∷ parts_from payload (index + 1) count

unfoldable pub split_payload : Bytes → Result (List Bytes)
split_payload payload = do
  guard (not (nat_eq (length payload) 0)) (range_error (text "the payload is empty"))
  ok (parts_from payload 0 (part_count_for (length payload)))
