-- ===== src/Outcome/Inversion.antt =====
-- What a successful sequence of actions says of its parts.
use ziti_livekit_example.Prelude.{◌≡◌, refl, ap, Bool, true, false, arith}
use ziti_livekit_example.Outcome.{
  Error, Result, ok, err, panic, Action, pure, lift, guard, modify, finally, continue, ◌>>=◌,
}

module _ {ℓ κ μ} {S : Type ℓ} {A : Type κ} {B : Type μ} where
  continue-eq-ok :
      (r : Result A) (f : A → Action S B) (s : S) {b : B} {t : S}
      → continue r f s ≡ (ok b, t)
      → (a : A) × (r ≡ ok a) × (f a s ≡ (ok b, t))
  continue-eq-ok (ok a) f s h = (a, refl, h)
  continue-eq-ok (err e) f s h = cc
  continue-eq-ok (panic x) f s h = cc

  -- The first action returned, and the rest began where it ended.
  pub bind-eq-ok :
      (m : Action S A) (f : A → Action S B) (s : S) {b : B} {t : S}
      → (m >>= f) s ≡ (ok b, t)
      → (a : A) × (u : S) × (m s ≡ (ok a, u)) × (f a u ≡ (ok b, t))
  unfolding ◌>>=◌
  bind-eq-ok m f s h =
      let (a, e, k) = continue-eq-ok (m s).0 f (m s).1 h in (a, (m s).1, (λ i. (e i, (m s).1)), k)

  -- A result that was lifted leaves the state alone.
  pub lift_bind-eq-ok :
      (r : Result A) (f : A → Action S B) (s : S) {b : B} {t : S}
      → (lift r >>= f) s ≡ (ok b, t)
      → (a : A) × (r ≡ ok a) × (f a s ≡ (ok b, t))
  unfolding ◌>>=◌
  lift_bind-eq-ok r f s h = continue-eq-ok r f s h

  -- A successful action in front of others is left out.
  pub bind_of_ok :
      (m : Action S A) (f : A → Action S B) (s : S) {a : A} {u : S}
      → m s ≡ (ok a, u)
      → (m >>= f) s ≡ f a u
  unfolding ◌>>=◌
  bind_of_ok m f s h = rw h

  pub bind_of_err :
      (m : Action S A) (f : A → Action S B) (s : S) {e : Error} {u : S}
      → m s ≡ (err e, u)
      → (m >>= f) s ≡ (err e, u)
  unfolding ◌>>=◌
  bind_of_err m f s h = rw h

module _ {ℓ κ} {S : Type ℓ} {B : Type κ} where
  -- What follows a guard runs only if its test holds.
  pub guard_bind-eq-ok :
      (c : Bool) (e : Error) (f : Unit {0} → Action S B) (s : S) {b : B} {t : S}
      → (guard c e >>= f) s ≡ (ok b, t)
      → (c ≡ true) × (f tt s ≡ (ok b, t))
  unfolding ◌>>=◌
  guard_bind-eq-ok true e f s h = (refl, h)
  guard_bind-eq-ok false e f s h = cc

  pub pure-eq-ok : {a b : B} {s t : S} → pure a s ≡ (ok b, t) → (a ≡ b) × (s ≡ t)
  unfolding pure
  pure-eq-ok h = ground arith

  pub lift-eq-ok : (r : Result B) {b : B} {s t : S} → lift r s ≡ (ok b, t) → (r ≡ ok b) × (s ≡ t)
  unfolding lift
  lift-eq-ok r h = (ap (λ x. x.0) h, ap (λ x. x.1) h)

  pub finally-eq-ok :
      (m : Action S B) (c : S → S) (s : S) {b : B} {t : S}
      → finally m c s ≡ (ok b, t)
      → (u : S) × (m s ≡ (ok b, u)) × (t ≡ c u)
  unfolding finally
  finally-eq-ok m c s h = ((m s).1, ground arith, ground arith)

pub modify-eq-ok {ℓ} :
    {S : Type ℓ} (f : S → S) {s t : S} {u : Unit {0}} → modify f s ≡ (ok u, t) → f s ≡ t
unfolding modify
modify-eq-ok f h = ap (λ x. x.1) h

-- Two values of equal results are equal.
pub ok-eq-ok {ℓ} : {A : Type ℓ} {a b : A} → ok a ≡ ok b → a ≡ b
ok-eq-ok {a} h = ap (λ r. elim r [ ok x ↦ x | err e ↦ a | panic t ↦ a ]) h
