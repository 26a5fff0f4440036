-- ===== src/Outcome/Triples.antt =====
-- What an action does from states that have a property: one property for each kind of its outcome.
use ziti_livekit_example.Prelude.{String, ◌≢◌, refl}
use ziti_livekit_example.Outcome.{Result, ok, err, panic, Action, pure, lift, continue, ◌>>=◌}

module _ {S A : Type 0} where
  -- The property for the kind of an outcome, of its state.
  abbrev pub Meets : (A → S → Type 0) → (S → Type 0) → (S → Type 0) → Result A → S → Type 0
  Meets Q E X (ok x) s = Q x s
  Meets Q E X (err e) s = E s
  Meets Q E X (panic t) s = X s

  -- From any state with the first property.
  pub record Triple (P : S → Type 0) (m : Action S A) (Q : A → S → Type 0) (E X : S → Type 0)
      : Type 0 where
    pub at : (s : S) → P s → Meets Q E X (m s).0 (m s).1

  pub Triple-pure :
      {P : S → Type 0} {Q : A → S → Type 0} {E X : S → Type 0} (a : A)
      → ((s : S) → P s → Q a s)
      → Triple P (pure a) Q E X
  unfolding pure
  Triple-pure a h = record { at = h }

  Meets-lift :
      (P X : S → Type 0) (r : Result A)
      → ((t : String) → r ≢ panic t)
      → (s : S) → P s
      → Meets (λ a. P) P X r s
  Meets-lift P X (ok a) calm s h = h
  Meets-lift P X (err e) calm s h = h
  Meets-lift P X (panic t) calm s h = absurd (calm t refl)

  pub Meets-any : (P : S → Type 0) (r : Result A) (s : S) → P s → Meets (λ a. P) P P r s
  Meets-any P (ok a) s h = h
  Meets-any P (err e) s h = h
  Meets-any P (panic t) s h = h

  Meets-same : (P : S → Type 0) (r : Result A) (s : S) → Meets (λ a. P) P P r s → P s
  Meets-same P (ok a) s h = h
  Meets-same P (err e) s h = h
  Meets-same P (panic t) s h = h

  -- One property for all kinds of outcome is that of the state after.
  pub Triple-same :
      {P Q : S → Type 0} (m : Action S A) → Triple P m (λ a. Q) Q Q → (s : S) → P s → Q (m s).1
  Triple-same m h s q = Meets-same _ (m s).0 (m s).1 (h.at s q)

  -- A result without a panic, which leaves the state alone.
  pub Triple-lift :
      {P : S → Type 0} {X : S → Type 0} (r : Result A)
      → ((t : String) → r ≢ panic t)
      → Triple P (lift r) (λ a. P) P X
  unfolding lift
  Triple-lift r calm = record { at = Meets-lift _ _ r calm }

  Meets-map :
      (Q Q' : A → S → Type 0) (E E' X X' : S → Type 0) (r : Result A) (s : S)
      → ((a : A) → Q a s → Q' a s)
      → (E s → E' s)
      → (X s → X' s)
      → Meets Q E X r s
      → Meets Q' E' X' r s
  Meets-map Q Q' E E' X X' (ok a) s f g k h = f a h
  Meets-map Q Q' E E' X X' (err e) s f g k h = g h
  Meets-map Q Q' E E' X X' (panic t) s f g k h = k h

  pub Triple-weaken :
      {P : S → Type 0} {Q Q' : A → S → Type 0} {E E' X X' : S → Type 0} (m : Action S A)
      → ((a : A) (s : S) → Q a s → Q' a s)
      → ((s : S) → E s → E' s)
      → ((s : S) → X s → X' s)
      → Triple P m Q E X
      → Triple P m Q' E' X'
  Triple-weaken m f g k h = record {
    at = λ s q.
        Meets-map _ _ _ _ _ _ (m s).0 (m s).1 (λ a. f a (m s).1) (g (m s).1) (k (m s).1) (h.at s q);
  }

module _ {S A B : Type 0} (Q : A → S → Type 0) (Q' : B → S → Type 0) (E X : S → Type 0) where
  Meets-continue :
      (r : Result A) (f : A → Action S B) (s : S)
      → ((a : A) → Triple (Q a) (f a) Q' E X)
      → Meets Q E X r s
      → Meets Q' E X (continue r f s).0 (continue r f s).1
  Meets-continue (ok a) f s k h = (k a).at s h
  Meets-continue (err e) f s k h = h
  Meets-continue (panic t) f s k h = h

module _ {S A B : Type 0} {Q : A → S → Type 0} {Q' : B → S → Type 0} {E X : S → Type 0} where
  pub Triple-bind :
      {P : S → Type 0} (m : Action S A) (f : A → Action S B)
      → Triple P m Q E X
      → ((a : A) → Triple (Q a) (f a) Q' E X)
      → Triple P (m >>= f) Q' E X
  unfolding ◌>>=◌
  Triple-bind m f h k = record { at = λ s q. Meets-continue _ _ _ _ (m s).0 f (m s).1 k (h.at s q) }
