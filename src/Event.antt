-- ===== src/Event.antt =====
-- src/reader/event.ts: `Misc` event values, their widths, names, and width restoration.
pub mod Widths
use compact_multi_part_event.Prelude.{
  ℕ, zero, suc, ◌+◌, ◌-◌, Bool, true, false, ◌&&◌, ◌||◌, not, List, [], ◌∷◌, ◌++◌, Text, Bytes,
  text, decimal, ltb, leb, nat_eq, if◌then◌else◌, length, take, drop, replicate, every, Error,
  range_error, Result, ok, throw, guard, ◌>>=◌, ◌>>◌,
}
use compact_multi_part_event.Bytes.{bytes_to_hex, hex_to_bytes}
use compact_multi_part_event.Utf8.{utf8_encode}

abbrev pub name_length : ℕ
name_length = 32

abbrev pub payload_length : ℕ
payload_length = 256

abbrev pub event_length : ℕ
event_length = name_length + payload_length

-- `buffer.set(source, offset)`; the callers check that the source fits.
unfoldable pub overwrite : Bytes → ℕ → Bytes → Bytes
overwrite [] offset source = []
overwrite (b ∷ buffer) (suc offset) source = b ∷ overwrite buffer offset source
overwrite (b ∷ buffer) zero [] = b ∷ buffer
overwrite (b ∷ buffer) zero (s ∷ source) = s ∷ overwrite buffer zero source

-- `new Uint8Array(n)`.
abbrev pub zeros : ℕ → Bytes
zeros n = replicate n 0

-- `string | Uint8Array`.
pub data Name : Type 0 where
  of_text : Text → Name
  of_bytes : Bytes → Name

unfoldable pub long_name_error : Text → Error
long_name_error name = range_error (text "event name '" ++ name ++ text "' is longer than 32 bytes")

unfoldable pub event_name : Name → Result Bytes
event_name (of_bytes name) = do
  guard (nat_eq (length name) name_length) (range_error (text "an event name is 32 bytes"))
  ok name
event_name (of_text name) = do
  let encoded = utf8_encode name
  guard (not (nat_eq (length encoded) 0)) (range_error (text "an event name must not be empty"))
  guard (leb (length encoded) name_length) (long_name_error name)
  ok (overwrite (zeros name_length) 0 encoded)

-- The loop that lowers `end` past trailing zeros, and `subarray(0, end)`.
unfoldable pub trim_zeros : Bytes → Bytes
trim_zeros [] = []
trim_zeros (b ∷ bytes) = elim (trim_zeros bytes) [
  | [] ↦ if nat_eq b 0 then [] else b ∷ []
  | c ∷ rest ↦ b ∷ c ∷ rest
]

abbrev pub is_printable : ℕ → Bool
is_printable byte = leb 0x20 byte && ltb byte 0x7F

unfoldable pub event_name_text : Bytes → Text
event_name_text name =
    let shown = trim_zeros name in
    if every is_printable shown && not (nat_eq (length shown) 0)
    then shown
    else text "0x" ++ bytes_to_hex name

pub record RestoredEvent : Type 0 where
  pub name : Bytes
  pub payload : Bytes

unfoldable pub too_long : ℕ → Text
too_long n = text "event value is " ++ decimal n ++ text " bytes; at most 288 allowed"

unfoldable pub restore_event_value : Bytes → Result Bytes
restore_event_value value = do
  guard (leb (length value) event_length) (range_error (too_long (length value)))
  ok (overwrite (zeros event_length) 0 value)

unfoldable pub split_event_value : Bytes → Result RestoredEvent
split_event_value value = do
  full ← restore_event_value value
  ok (record { name = take name_length full; payload = drop name_length full })

unfoldable pub event_value : Bytes → Bytes → Result Bytes
event_value name payload = do
  guard (leb (length name) name_length) (range_error (text "event name is longer than 32 bytes"))
  guard (leb (length payload) payload_length)
      (range_error (text "event payload is longer than 256 bytes"))
  ok (overwrite (overwrite (zeros event_length) 0 name) name_length payload)

pub record IndexerMiscFields : Type 0 where
  pub name : Text
  pub payload : Text

unfoldable pub restore_indexer_misc_event : IndexerMiscFields → Result RestoredEvent
restore_indexer_misc_event fields = do
  name ← hex_to_bytes fields.name
  payload ← hex_to_bytes fields.payload
  guard (not (nat_eq (length name) 0))
      (range_error (text "event has an empty name (the indexer could not parse its value)"))
  guard (leb (length name) name_length) (range_error (text "event name is longer than 32 bytes"))
  guard (leb (length payload) payload_length)
      (range_error (text "event payload is longer than 256 bytes"))
  guard (not (ltb (length name) name_length && ltb 0 (length payload)))
      (range_error (text "event name is shorter than 32 bytes but a payload follows"))
  value ← event_value name payload
  split_event_value value
