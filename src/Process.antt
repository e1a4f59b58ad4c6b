-- ===== src/Process.antt =====
-- Computations that await calls of an environment: they read and change its state, may throw, and
-- leave the calls that they made, in order.
use compact_multi_part_event.Prelude.{List, [], ◌∷◌, ◌++◌, Error, Result, ok, throw, ◌≡◌, refl}

abbrev pub Process {ℓ} : Type 0 → Type 0 → Type ℓ → Type ℓ
Process S C A = S → Result A × S × List C

module _ {ℓ} {S C : Type 0} {A : Type ℓ} where
  abbrev pub pure : A → Process S C A
  pure a s = (ok a, s, [])

  abbrev pub fail : Error → Process S C A
  fail e s = (throw e, s, [])

  abbrev pub lift : Result A → Process S C A
  lift r s = (r, s, [])

  -- A call, with the environment's answer.
  abbrev pub call : C → (S → A × S) → Process S C A
  call c answer s = let (a, s') = answer s in (ok a, s', c ∷ [])

module _ {ℓ κ} {S C : Type 0} {A : Type ℓ} {B : Type κ} where
  abbrev pub continue : (A → Process S C B) → Result A × S × List C → Result B × S × List C
  continue f (throw e, s, calls) = (throw e, s, calls)
  continue f (ok a, s, calls) = let (r, s', more) = f a s in (r, s', calls ++ more)

  infixl 5 ◌>>=◌
  abbrev pub ◌>>=◌ : Process S C A → (A → Process S C B) → Process S C B
  ◌>>=◌ m f s = continue f (m s)

infixl 5 ◌>>◌
abbrev pub ◌>>◌ {ℓ κ} :
    {S C : Type 0} {A : Type ℓ} {B : Type κ} → Process S C A → Process S C B → Process S C B
m >> n = m >>= λ _. n

module _ {ℓ κ} {S C : Type 0} {A : Type ℓ} {B : Type κ} where
  -- A chain that answers: its first step did, and the rest answers from the state it left.
  pub process-ok :
      (m : Process S C A) (f : A → Process S C B) (s : S) {b : B}
      → ((m >>= f) s).0 ≡ ok b
      → (a : A) × ((m s).0 ≡ ok a) × ((f a (m s).1).0 ≡ ok b)
  process-ok m f s = by_result (m s)
    where
      by_result :
          (x : Result A × S × List C) {b : B}
          → (continue f x).0 ≡ ok b
          → (a : A) × (x.0 ≡ ok a) × ((f a x.1).0 ≡ ok b)
      by_result (ok a, t, calls) h = (a, refl, h)
      by_result (throw e, t, calls) h = cc
