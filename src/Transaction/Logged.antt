-- ===== src/Transaction/Logged.antt =====
-- src/reader/transaction.ts: the events that a transcript program logs.
-- These functions throw only a `RangeError`, so that each `catch` here takes its message.
use compact_multi_part_event.Prelude.{
  ℕ, ◌+◌, ◌*◌, Bool, true, false, not, Option, none, some, List, [], ◌∷◌, ◌++◌, Text, Bytes, text,
  decimal, leb, nat_eq, if◌then◌else◌, length,
}
use compact_multi_part_event.Event.{event_length, overwrite, zeros}
use compact_multi_part_event.Ledger.{
  AlignmentSegment, bytes_atom, other_segment, StateValue, cell, array, other_value, nil, cons, Op,
  log, push, other_op, EntryPoint,
}
use compact_multi_part_event.Utf8.{utf8_decode}

-- A value, or the message of the `RangeError`.
pub data Decoded {ℓ} (A : Type ℓ) : Type ℓ where
  decoded : A → Decoded A
  malformed : Text → Decoded A

infixl 5 ◌>>=◌
abbrev pub ◌>>=◌ {ℓ κ} : {A : Type ℓ} {B : Type κ} → Decoded A → (A → Decoded B) → Decoded B
decoded a >>= f = f a
malformed m >>= f = malformed m

abbrev pub misc_event_type_code : ℕ
misc_event_type_code = 10

unfoldable pub entry_point_text : EntryPoint → Text
entry_point_text (EntryPoint.of_text s) = s
entry_point_text (EntryPoint.of_bytes bytes) = utf8_decode bytes

-- `width !== undefined && length !== width`.
abbrev pub other_width : Option ℕ → ℕ → Bool
other_width none length = false
other_width (some width) length = not (nat_eq length width)

-- The checks on the alignment: the width of the only atom.
unfoldable pub atom_width : List AlignmentSegment → Option ℕ → Decoded ℕ
atom_width (bytes_atom n ∷ []) width =
    if other_width width n then malformed (text "unexpected cell alignment") else decoded n
atom_width (other_segment ∷ []) width = malformed (text "unexpected cell alignment")
atom_width [] width = malformed (text "unexpected cell alignment")
atom_width (s ∷ t ∷ more) width = malformed (text "unexpected cell alignment")

unfoldable pub atoms_message : ℕ → Text
atoms_message n = text "cell holds " ++ decimal n ++ text " atoms"

unfoldable pub only_atom : List Bytes → Decoded Bytes
only_atom (atom ∷ []) = decoded atom
only_atom [] = malformed (atoms_message 0)
only_atom (a ∷ b ∷ atoms) = malformed (atoms_message (length (a ∷ b ∷ atoms)))

abbrev pub tag_of : StateValue → Text
tag_of (cell alignment atoms) = text "cell"
tag_of (array items) = text "array"
tag_of (other_value tag) = tag

unfoldable pub wrong_tag : Text → Text
wrong_tag tag = text "expected a cell, found '" ++ tag ++ text "'"

unfoldable pub cell_atom : StateValue → Option ℕ → Decoded Bytes
cell_atom (cell alignment atoms) width = do
  most ← atom_width alignment width
  atom ← only_atom atoms
  if leb (length atom) most then decoded atom else malformed (text "cell atom exceeds its width")
cell_atom (array items) width = malformed (wrong_tag (tag_of (array items)))
cell_atom (other_value tag) width = malformed (wrong_tag tag)

-- The loop from the last byte down to the first.
unfoldable pub little_endian_number : Bytes → ℕ
little_endian_number [] = 0
little_endian_number (b ∷ bytes) = little_endian_number bytes * 256 + b

unfoldable pub decode_misc_value : StateValue → Decoded Bytes
decode_misc_value value = do
  atom ← cell_atom value (some event_length)
  decoded (overwrite (zeros event_length) 0 atom)

pub record LoggedEvent : Type 0 where
  pub type_code : ℕ
  pub content : StateValue

-- `[version, type, data]`.
unfoldable pub logged_item : StateValue → Decoded LoggedEvent
logged_item (array (cons version (cons type (cons value nil)))) = do
  atom ← cell_atom type none
  decoded (record { type_code = little_endian_number atom; content = value })
logged_item _ = malformed (text "logged item is not [version, type, data]")

-- The event of a `log` whose preceding operation is `program[index - 1]`.
unfoldable pub logged_event : Option Op → Decoded LoggedEvent
logged_event (some (push true value)) = malformed (text "log operand is a storage value")
logged_event (some (push false value)) = logged_item value
logged_event (some log) = malformed (text "log operand is not a pushed value")
logged_event (some other_op) = malformed (text "log operand is not a pushed value")
logged_event none = malformed (text "log operand is not a pushed value")

-- `flatMap` over the program, with the operation before the current one.
unfoldable pub logged_from : Option Op → List Op → Decoded (List LoggedEvent)
logged_from before [] = decoded []
logged_from before (log ∷ ops) = do
  event ← logged_event before
  events ← logged_from (some log) ops
  decoded (event ∷ events)
logged_from before (push storage value ∷ ops) = logged_from (some (push storage value)) ops
logged_from before (other_op ∷ ops) = logged_from (some other_op) ops

unfoldable pub logged_events : List Op → Decoded (List LoggedEvent)
logged_events program = logged_from none program
