-- ===== src/Prelude/Texts.antt =====
-- String literals as code units, and `startsWith`.
use Prim.Native.Char.{code}
use Prim.Native.String.{String}
use mathlib.Core.Bool.{Bool, true, false, ◌&&◌}
use mathlib.Core.List.{[], ◌∷◌}
use compact_multi_part_event.Prelude.Tests.{nat_eq, Eq, list_eq, list_eq_iff}
use compact_multi_part_event.Prelude.Results.{Text}

-- A literal of the source; all of them are in the basic plane, where code points are code units.
unfoldable pub text : String → Text
text String.[] = []
text (String.◌∷◌ c s) = code c ∷ text s

abbrev pub starts_with : Text → Text → Bool
starts_with s [] = true
starts_with [] (c ∷ p) = false
starts_with (d ∷ s) (c ∷ p) = nat_eq d c && starts_with s p

instance abbrev pub text_eq : Eq Text
text_eq = record { beq = list_eq; beq_iff = list_eq_iff }
