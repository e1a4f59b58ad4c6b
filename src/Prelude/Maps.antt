-- ===== src/Prelude/Maps.antt =====
-- A JavaScript `Map`: an association list in insertion order. A `set` on a present key keeps
-- the key's place.

use mathlib.Core.Path.{◌≡◌, refl, sym, ◌∙◌, subst}
use mathlib.Core.Logic.{inl, inr}
use mathlib.Core.Option.{Option, none, some}
use mathlib.Core.List.{List, [], ◌∷◌}
use native.Mathlib.Omega.{arith}
use compact_multi_part_event.Prelude.Tests.{Eq, ◌==◌, if◌then◌else◌, Bool-cases, some_injective}

abbrev pub Dictionary {ℓ κ} : Type ℓ → Type κ → Type (ℓ ⊔ κ)
Dictionary K V = List (K × V)

module _ {ℓ κ} {K : Type ℓ} {V : Type κ} ⦃e : Eq K⦄ where
  abbrev pub lookup : K → Dictionary K V → Option V
  lookup k [] = none
  lookup k ((j, v) ∷ m) = if j == k then some v else lookup k m

  abbrev pub store : K → V → Dictionary K V → Dictionary K V
  store k v [] = (k, v) ∷ []
  store k v ((j, w) ∷ m) = if j == k then (j, v) ∷ m else (j, w) ∷ store k v m

  pub lookup-store :
      (k j : K) (v : V) (m : Dictionary K V)
      → lookup j (store k v m) ≡ (if k == j then some v else lookup j m)
  lookup-store k j v [] = refl
  lookup-store k j v ((i, w) ∷ m) =
      ground (arith, e.beq_iff k j, e.beq_iff i k, e.beq_iff i j, lookup-store k j v m)

  -- What holds of every entry.
  abbrev pub AreStored {μ} : (K → V → Type μ) → Dictionary K V → Type (ℓ ⊔ κ ⊔ μ)
  AreStored P m = (k : K) (v : V) → lookup k m ≡ some v → P k v

  pub store-AreStored {μ} :
      (P : K → V → Type μ) (k : K) (v : V) (m : Dictionary K V)
      → P k v
      → AreStored P m
      → AreStored P (store k v m)
  store-AreStored P k v m here there j w h = elim (Bool-cases (k == j)) [
    | inl same ↦
        let at = sym (lookup-store k j v m) ∙ h in
        subst (λ x. P j x) (some_injective (rw same at at))
          (subst (λ i. P i v) ((e.beq_iff k j).0 same) here)
    | inr differs ↦ let at = sym (lookup-store k j v m) ∙ h in there j w (rw differs at at)
  ]
