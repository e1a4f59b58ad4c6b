-- ===== src/Prelude/Results.antt =====
-- Exceptions as values. `package_check` is the error class `PackageCheckError` with its stage,
-- `public_data` is `PublicDataError` with its kind,
-- `key_mismatch` is `VerifierKeyMismatchError`. `out_of_rounds` is no exception of the code: it says
-- that a loop was given too few rounds.
use mathlib.Core.Path.{◌≡◌, refl}
use mathlib.Core.Bool.{Bool, true, false}
use mathlib.Core.List.{List}
use Prim.Native.Nat.{ℕ}

-- A JavaScript string as its UTF-16 code units.
abbrev pub Text : Type 0
Text = List ℕ

-- A `Uint8Array`.
abbrev pub Bytes : Type 0
Bytes = List ℕ

pub data Error : Type 0 where
  range_error : Text → Error
  plain_error : Text → Error
  package_check : (stage detail : Text) → Error
  public_data : (kind detail : Text) → Error
  key_mismatch : Text → Error
  out_of_rounds : Error

pub data Result {ℓ} (A : Type ℓ) : Type ℓ where
  ok : A → Result A
  throw : Error → Result A

-- `if (!test) throw e`.
abbrev pub guard : Bool → Error → Result (Unit {0})
guard false e = throw e
guard true e = ok tt

infixl 5 ◌>>◌ ◌>>=◌
-- What follows a computation that has not thrown.
abbrev pub ◌>>=◌ {ℓ κ} :
    {A : Type ℓ} {B : Type κ} → (first : Result A) → (next : A → Result B) → Result B
throw x >>= next = throw x
ok value >>= next = next value

abbrev pub ◌>>◌ {ℓ} : {B : Type ℓ} → (first : Result (Unit {0})) → (rest : Result B) → Result B
first >> rest = first >>= λ _. rest

-- The steps of a chain that has answered.
pub >>=-eq-ok {ℓ κ} :
    {A : Type ℓ} {B : Type κ} (first : Result A) (next : A → Result B) {answer : B}
    → (first >>= next) ≡ ok answer
    → (value : A) × (first ≡ ok value) × (next value ≡ ok answer)
>>=-eq-ok (throw x) next thrown = cc
>>=-eq-ok (ok value) next same = (value, refl, same)

pub guard-eq-ok {ℓ} :
    {B : Type ℓ} (test : Bool) (x : Error) (rest : Result B) {answer : B}
    → (guard test x >> rest) ≡ ok answer
    → (test ≡ true) × (rest ≡ ok answer)
guard-eq-ok false x rest thrown = cc
guard-eq-ok true x rest same = (refl, same)

pub guard_last : (t : Bool) (e : Error) → guard t e ≡ ok tt → t ≡ true
guard_last true e h = refl
guard_last false e h = cc

pub throw_ne_ok {ℓ} : {A : Type ℓ} (e : Error) (a : A) → ¬ (throw e ≡ ok a)
throw_ne_ok e a h = cc

pub ok_injective {ℓ} : {A : Type ℓ} {a b : A} → ok a ≡ ok b → a ≡ b
ok_injective h = cc
