-- ===== src/Outcome.antt =====
-- Go's errors, and the functions of the program that may fail, panic and change state.
pub mod Inversion
pub mod Keeps
pub mod Triples
use ziti_livekit_example.Prelude.{String, Bool, true, false}

-- `not_exist` is an error for which `errors.Is(err, os.ErrNotExist)` holds; `reason` is any other,
-- by the text that its `Error` method returns.
pub data Error : Type 0 where
  not_exist : Error
  reason : String → Error

unfoldable pub error_text : Error → String
error_text not_exist = "file does not exist"
error_text (reason t) = t

-- What a call gives back: a value with a nil error, an error, or a run-time panic.
pub data Result {ℓ} (A : Type ℓ) : Type ℓ where
  ok : A → Result A
  err : Error → Result A
  panic : String → Result A

-- A function that reads and changes state. What was changed before an error stays changed.
abbrev pub Action {ℓ κ} : Type ℓ → Type κ → Type (ℓ ⊔ κ)
Action S A = S → Result A × S

module _ {ℓ κ} {S : Type ℓ} {A : Type κ} where
  unfoldable pub pure : A → Action S A
  pure a s = (ok a, s)

  unfoldable pub fail : Error → Action S A
  fail e s = (err e, s)

  unfoldable pub lift : Result A → Action S A
  lift r s = (r, s)

  abbrev pub settle : Result A → S → Result (Result A) × S
  settle (ok a) s = (ok (ok a), s)
  settle (err e) s = (ok (err e), s)
  settle (panic t) s = (panic t, s)

  -- `v, err := m()`: the error becomes a value, and a panic goes on.
  unfoldable pub attempt : Action S A → Action S (Result A)
  attempt m s = let (r, s') = m s in settle r s'

  -- `defer c()` around the rest of a function: it runs whatever the outcome.
  unfoldable pub finally : Action S A → (S → S) → Action S A
  finally m c s = let (r, s') = m s in (r, c s')

module _ {ℓ} {S : Type ℓ} where
  unfoldable pub modify : (S → S) → Action S (Unit {0})
  modify f s = (ok tt, f s)

  -- `if !b { return e }`
  unfoldable pub guard : Bool → Error → Action S (Unit {0})
  guard true e s = (ok tt, s)
  guard false e s = (err e, s)

module _ {ℓ κ μ} {S : Type ℓ} {A : Type κ} {B : Type μ} where
  abbrev pub continue : Result A → (A → Action S B) → Action S B
  continue (ok a) f s = f a s
  continue (err e) f s = (err e, s)
  continue (panic t) f s = (panic t, s)

  infixl 10 ◌>>=◌ ◌>>◌
  -- opening this opens the actions above too
  unfoldable pub ◌>>=◌ : Action S A → (A → Action S B) → Action S B
  unfolding pure fail lift attempt finally modify guard
  ◌>>=◌ m f s = let (r, s') = m s in continue r f s'

  abbrev pub ◌>>◌ : Action S A → Action S B → Action S B
  m >> n = m >>= λ _. n
