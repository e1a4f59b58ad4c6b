-- ===== src/Effects.antt =====
-- Promises and provider calls: an awaited computation is its result and the calls that it made, in
-- order. The calls that were made stay when an exception ends the computation.
use compact_multi_part_event.Prelude.{
  List, [], ◌∷◌, ◌++◌, Result, ok, throw, throw_ne_ok, ◌≡◌, refl,
}

abbrev pub Effect {ℓ} : Type 0 → Type ℓ → Type ℓ
Effect C A = Result A × List C

module _ {ℓ} {C : Type 0} {A : Type ℓ} where
  abbrev pub pure : A → Effect C A
  pure a = (ok a, [])

  abbrev pub lift : Result A → Effect C A
  lift r = (r, [])

  -- A call, with its answer.
  abbrev pub call : C → Result A → Effect C A
  call c answer = (answer, c ∷ [])

module _ {ℓ κ} {C : Type 0} {A : Type ℓ} {B : Type κ} where
  abbrev pub and_then : Result A → (A → Effect C B) → Effect C B
  and_then (ok a) f = f a
  and_then (throw e) f = (throw e, [])

  infixl 5 ◌>>=◌
  abbrev pub ◌>>=◌ : Effect C A → (A → Effect C B) → Effect C B
  m >>= f = let next = and_then m.0 f in (next.0, m.1 ++ next.1)

infixl 5 ◌>>◌
abbrev pub ◌>>◌ {ℓ κ} :
    {C : Type 0} {A : Type ℓ} {B : Type κ} → Effect C A → Effect C B → Effect C B
m >> n = m >>= λ _. n

module _ {ℓ κ} {C : Type 0} {A : Type ℓ} {B : Type κ} where
  -- A chain that ends with a result: its first step did, and the calls are those of both.
  pub effect-eq-ok :
      (m : Effect C A) (f : A → Effect C B) {b : B}
      → (m >>= f).0 ≡ ok b
      → (a : A) × (m.0 ≡ ok a) × ((f a).0 ≡ ok b) × ((m >>= f).1 ≡ m.1 ++ (f a).1)
  effect-eq-ok (ok a, calls) f e = (a, refl, e, refl)
  effect-eq-ok (throw x, calls) f e = absurd (throw_ne_ok x _ e)
