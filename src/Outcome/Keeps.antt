-- ===== src/Outcome/Keeps.antt =====
-- Actions that keep a relation between the state before and the state after, whatever their outcome.

use ziti_livekit_example.Outcome.{Result, ok, err, panic, Action, continue, ◌>>=◌}

pub record Keeps {ℓ} {S A : Type ℓ} (R : S → S → Type ℓ) (m : Action S A) : Type ℓ where
  pub at : (s : S) → R s (m s).1

module _ {ℓ} {S : Type ℓ} {R : S → S → Type ℓ} (same : (s : S) → R s s)
    (chain : (a b c : S) → R a b → R b c → R a c) where
  Keeps-continue :
      {A B : Type ℓ} (r : Result A) (f : A → Action S B)
      → ((a : A) → Keeps R (f a))
      → (s : S) → R s (continue r f s).1
  Keeps-continue (ok a) f h s = (h a).at s
  Keeps-continue (err e) f h s = same s
  Keeps-continue (panic t) f h s = same s

  pub Keeps-bind :
      {A B : Type ℓ} (m : Action S A) (f : A → Action S B)
      → Keeps R m
      → ((a : A) → Keeps R (f a))
      → Keeps R (m >>= f)
  unfolding ◌>>=◌
  Keeps-bind m f h k = record {
    at = λ s. chain s (m s).1 _ (h.at s) (Keeps-continue (m s).0 f k (m s).1);
  }
