-- ===== src/Tests/Reader.antt =====
-- Runs of the reader: the code of src/reader/, and of src/publisher/parts.ts.
use compact_multi_part_event.Prelude.{
  ℕ, ◌≡◌, ◌≢◌, ◌↔◌, inl, inr, refl, sym, ap, true, none, some, List, [], ◌∷◌, ◌++◌, Bytes, text,
  take, drop, length, every, insert, sort, All, ok, arith,
}
use compact_multi_part_event.Bytes.{
  same_bytes, bytes_equal, bytes_to_hex, hex_to_bytes, is_hex_digit, digit_value, decode_pairs,
}
use compact_multi_part_event.Bytes.Hex.{IsByte, hex_to_bytes-bytes_to_hex, hex_to_bytes_sound}
use compact_multi_part_event.Bytes.Order.{bytes_equal_iff}
use compact_multi_part_event.Event.{
  name_length, zeros, overwrite, trim_zeros, restore_event_value, split_event_value,
  restore_indexer_misc_event,
}
use compact_multi_part_event.Event.Widths.{
  restore-trim, split-trim-event_value, event_value_full, restore_indexer_misc_event_complete,
}
use compact_multi_part_event.Packages.{
  accepted, Scope, Delivery, Group, group_key, add_issue, survey_value, survey_delivery, survey,
  merge_parts, fill_payload, package_of, evaluate,
}
use compact_multi_part_event.Packages.Accepted.{
  IsRestored, IsMerged, evaluate-IsMerged, evaluate-accepted_iff,
}
use compact_multi_part_event.Packages.Keys.{IsScope, group_key_iff}
use compact_multi_part_event.Packages.Positions.{Member}
use compact_multi_part_event.Packages.Redelivery.{evaluate_redelivered}
use compact_multi_part_event.Packages.Survey.{IsConsistent}
use compact_multi_part_event.Parts.{split_payload}
use compact_multi_part_event.Parts.Laws.{IsSplit, split_payload-IsSplit}
use compact_multi_part_event.Tests.Toy.{toy_name, toy_part}

hex_to_bytes-bytes_to_hex_example : hex_to_bytes (bytes_to_hex (7 ∷ 255 ∷ [])) ≡ ok (7 ∷ 255 ∷ [])
hex_to_bytes-bytes_to_hex_example =
    hex_to_bytes-bytes_to_hex (7 ∷ 255 ∷ []) (omega arith, (omega arith, tt))

reads_hex : hex_to_bytes (text "0aFF") ≡ ok (10 ∷ 255 ∷ [])
unfolding hex_to_bytes is_hex_digit digit_value decode_pairs text
reads_hex = refl

hex_to_bytes_sound_example :
    (length (text "0aFF") ≡ 4)
    × (every is_hex_digit (text "0aFF") ≡ true)
    × All IsByte (10 ∷ 255 ∷ [])
hex_to_bytes_sound_example = hex_to_bytes_sound (text "0aFF") (10 ∷ 255 ∷ []) reads_hex

abbrev two_bytes : Bytes
two_bytes = 1 ∷ 2 ∷ []

bytes_equal_example : (bytes_equal two_bytes (1 ∷ 3 ∷ []) ≡ true) ↔ (two_bytes ≡ 1 ∷ 3 ∷ [])
bytes_equal_example = bytes_equal_iff two_bytes (1 ∷ 3 ∷ [])

restore-trim_example :
    restore_event_value (trim_zeros (toy_name ++ toy_part 0)) ≡ ok (toy_name ++ toy_part 0)
restore-trim_example = restore-trim (toy_name ++ toy_part 0) refl

split-trim_example :
    split_event_value (trim_zeros (toy_name ++ toy_part 0))
    ≡ ok (record { name = toy_name; payload = toy_part 0 })
split-trim_example =
    split-trim-event_value toy_name (toy_part 0) (toy_name ++ toy_part 0) refl refl
      (event_value_full toy_name (toy_part 0) refl refl)

one_ne_nil : two_bytes ≢ []
one_ne_nil e = cc

restore_indexer_example :
    restore_indexer_misc_event (record {
      name = bytes_to_hex (take name_length two_bytes);
      payload = bytes_to_hex (drop name_length two_bytes);
    })
    ≡ ok (record {
      name = take name_length (two_bytes ++ zeros 286);
      payload = drop name_length (two_bytes ++ zeros 286);
    })
restore_indexer_example =
    restore_indexer_misc_event_complete two_bytes 286 (omega arith, (omega arith, tt)) refl
      one_ne_nil

split_payload_example :
    (parts : List Bytes) × (split_payload two_bytes ≡ ok parts) × IsSplit two_bytes parts
split_payload_example = split_payload-IsSplit two_bytes one_ne_nil

abbrev toy_scope : ℕ → Scope
toy_scope segment = record {
  network = 110 ∷ [];
  contract = 99 ∷ [];
  name = 1 ∷ 255 ∷ [];
  transaction_hash = 104 ∷ [];
  segment = segment;
}

toy_scope-IsScope : (segment : ℕ) → IsScope (toy_scope segment)
toy_scope-IsScope segment = record {
  network_units = (omega arith, tt);
  contract_units = (omega arith, tt);
  name_bytes = (omega arith, (omega arith, tt));
  hash_units = (omega arith, tt);
}

group_key_example :
    (group_key (toy_scope 1) ≡ group_key (toy_scope 2)) ↔ (toy_scope 1 ≡ toy_scope 2)
group_key_example =
    group_key_iff (toy_scope 1) (toy_scope 2) (toy_scope-IsScope 1) (toy_scope-IsScope 2)

abbrev toy_delivery : ℕ → ℕ → Delivery
toy_delivery position fill = record {
  position = position;
  value = some (toy_name ++ toy_part fill);
  malformed = none;
}

toy_delivery-IsRestored : (position fill : ℕ) → IsRestored (toy_delivery position fill)
toy_delivery-IsRestored position fill v e =
    let same : toy_name ++ toy_part fill ≡ v = cc in ap length (sym same)

-- Position 9 before position 4.
abbrev toy_group : Group
toy_group = record { scope = toy_scope 1; deliveries = toy_delivery 9 3 ∷ toy_delivery 4 2 ∷ [] }

-- In order, with one delivery repeated.
abbrev toy_redelivery : Group
toy_redelivery = record {
  scope = toy_scope 1;
  deliveries = toy_delivery 4 2 ∷ toy_delivery 9 3 ∷ toy_delivery 4 2 ∷ [];
}

toy_accepts : (evaluate toy_group).status ≡ accepted
unfolding evaluate survey survey_delivery survey_value package_of merge_parts fill_payload overwrite
    same_bytes bytes_equal insert sort add_issue
toy_accepts = refl

toy_redelivery_accepts : (evaluate toy_redelivery).status ≡ accepted
unfolding evaluate survey survey_delivery survey_value package_of merge_parts fill_payload overwrite
    same_bytes bytes_equal insert sort add_issue
toy_redelivery_accepts = refl

evaluate-IsMerged_example : IsMerged toy_group.deliveries (evaluate toy_group)
evaluate-IsMerged_example =
    evaluate-IsMerged toy_group (toy_delivery-IsRestored 9 3, (toy_delivery-IsRestored 4 2, tt))
      toy_accepts

evaluate-accepted_example :
    ((evaluate toy_group).status ≡ accepted) ↔ IsConsistent toy_group.deliveries
evaluate-accepted_example = evaluate-accepted_iff toy_group

toy_to : (d : Delivery) → Member d toy_group.deliveries → Member d toy_redelivery.deliveries
toy_to d (inl here) = inr (inl here)
toy_to d (inr (inl there)) = inl there
toy_to d (inr (inr never)) = absurd never

toy_from : (d : Delivery) → Member d toy_redelivery.deliveries → Member d toy_group.deliveries
toy_from d (inl here) = inr (inl here)
toy_from d (inr (inl there)) = inl there
toy_from d (inr (inr (inl again))) = inr (inl again)
toy_from d (inr (inr (inr never))) = absurd never

evaluate_redelivered_example :
    ((evaluate toy_group).positions ≡ (evaluate toy_redelivery).positions)
    × ((evaluate toy_group).parts ≡ (evaluate toy_redelivery).parts)
    × ((evaluate toy_group).payload ≡ (evaluate toy_redelivery).payload)
evaluate_redelivered_example =
    evaluate_redelivered toy_group toy_redelivery
      (toy_delivery-IsRestored 9 3, (toy_delivery-IsRestored 4 2, tt))
      (
        toy_delivery-IsRestored 4 2,
        (toy_delivery-IsRestored 9 3, (toy_delivery-IsRestored 4 2, tt)),
      )
      toy_accepts toy_redelivery_accepts toy_to toy_from
