-- ===== src/Base/Exec.antt =====
-- Python calls that read and write an object and may raise. What was written before a raise stays
-- written, so the state comes back beside the error too.
use mathlib.Core.Bool.{Bool, true, false}
use mathlib.Core.List.{List}
use Prim.Native.Nat.{ℕ}

-- The exceptions, by class. `service_response_error` carries the text of its message where the
-- code copies one; `foreign` is any other `Exception` of code that the program calls, and
-- `interrupt` one of `ALLOWED_EXCEPTIONS` (utils.py), which handlers let through.
pub data Error : Type 0 where
  value_error overflow_error unicode_error type_error runtime_error : Error
  incomplete_read connection_error timeout_error not_implemented : Error
  unsupported_provider service_request_error foreign interrupt : Error
  service_response_error : List ℕ → Error

pub data Result {ℓ} (A : Type ℓ) : Type ℓ where
  ok : A → Result A
  err : Error → Result A

abbrev pub Exec {ℓ κ} : Type ℓ → Type κ → Type (ℓ ⊔ κ)
Exec S A = S → Result A × S

module _ {ℓ κ} {S : Type ℓ} {A : Type κ} where
  abbrev pub pure : A → Exec S A
  pure a s = (ok a, s)

  abbrev pub raise : Error → Exec S A
  raise e s = (err e, s)

  -- A call that leaves the object alone.
  abbrev pub lift : Result A → Exec S A
  lift r s = (r, s)

-- An assignment to the object.
abbrev pub modify {ℓ} : {S : Type ℓ} → (S → S) → Exec S (Unit {0})
modify f s = (ok tt, f s)

module _ {ℓ κ κ'} {S : Type ℓ} {A : Type κ} {B : Type κ'} where
  abbrev pub after : Result A × S → (A → Exec S B) → Result B × S
  after (ok a, s) f = f a s
  after (err e, s) f = (err e, s)

  infixl 5 ◌>>=◌ ◌>>◌
  abbrev pub ◌>>=◌ : Exec S A → (A → Exec S B) → Exec S B
  ◌>>=◌ m f s = after (m s) f

  abbrev pub ◌>>◌ : Exec S A → Exec S B → Exec S B
  ◌>>◌ m k s = after (m s) (λ _. k)

-- `require` of utils.py, and any other `if not test: raise`.
abbrev pub require {ℓ} : {S : Type ℓ} → Bool → Error → Exec S (Unit {0})
require true e = pure tt
require false e = raise e

-- `try: body finally: cleanup`; an exception of the cleanup takes the place of the body's.
module _ {ℓ κ} {S : Type ℓ} {A : Type κ} where
  abbrev pub then_raise : Result A → Result (Unit {0}) × S → Result A × S
  then_raise r (ok _, s) = (r, s)
  then_raise r (err e, s) = (err e, s)

  abbrev pub finally : Result A × S → Exec S (Unit {0}) → Result A × S
  finally (r, s) cleanup = then_raise r (cleanup s)

-- `except ALLOWED_EXCEPTIONS: raise`, `except Exception: log`
abbrev pub contained {ℓ} : {S : Type ℓ} → Result (Unit {0}) × S → Result (Unit {0}) × S
contained (err interrupt, s) = (err interrupt, s)
contained (_, s) = (ok tt, s)

-- A call on one of two objects.
module _ {ℓ κ} {S T : Type ℓ} {A : Type κ} where
  abbrev pub on_first : Exec S A → Exec (S × T) A
  on_first m (s, t) = let (r, s') = m s in (r, (s', t))

  abbrev pub on_second : Exec T A → Exec (S × T) A
  on_second m (s, t) = let (r, t') = m t in (r, (s, t'))
