-- ===== src/Websocket/Dial/Levels.antt =====
-- Actions that leave the count of open net connections as it was, raise it, or lower it.

use ziti_livekit_example.Prelude.{
  ℕ, ◌+◌, ◌≡◌, refl, ap, ◌∙◌, Bool, true, false, arith, if◌then◌else◌,
}
use ziti_livekit_example.Outcome.{
  Error, Result, ok, err, panic, Action, pure, lift, attempt, guard, continue, ◌>>=◌,
}
use ziti_livekit_example.Openziti.Platform.{Platform}
use ziti_livekit_example.Websocket.Types.{Dialing, on_net}

-- An action that leaves as many connections open as there were.
pub record Level {p : Platform} {A : Type 0} (m : Action (Dialing p) A) : Type 0 where
  pub at : (s : Dialing p) → (m s).1.open_conns ≡ s.open_conns

-- The connections that stand open after an outcome: one more, if there is one to use.
abbrev pub after : {A : Type 0} → Result A → ℕ → ℕ
after (ok a) n = n + 1
after (err e) n = n
after (panic t) n = n

-- An action that opens one connection if it succeeds, and leaves none behind if it does not.
pub record Opens {p : Platform} {A : Type 0} (m : Action (Dialing p) A) : Type 0 where
  pub at : (s : Dialing p) → (m s).1.open_conns ≡ after (m s).0 s.open_conns

-- An action that uses up an open connection unless it succeeds.
pub record Uses {p : Platform} {A : Type 0} (m : Action (Dialing p) A) : Type 0 where
  pub at : (s : Dialing p) (n : ℕ) → s.open_conns ≡ n + 1 → (m s).1.open_conns ≡ after (m s).0 n

module _ {p : Platform} {A : Type 0} where
  pub Level-pure : (a : A) → Level {p = p} (pure a)
  unfolding pure
  Level-pure a = record { at = λ s. refl }

  pub Level-lift : (r : Result A) → Level {p = p} (lift r)
  unfolding lift
  Level-lift r = record { at = λ s. refl }

  pub Level-on_net : (f : p.Net → Result A × p.Net) → Level {p = p} (on_net f)
  unfolding on_net
  Level-on_net f = record { at = λ s. refl }

  pub Level-attempt : (m : Action (Dialing p) A) → Level m → Level (attempt m)
  unfolding attempt
  Level-attempt m h = record { at = λ s. ground (arith, h.at s) }

  pub Level-if :
      (b : Bool) (m n : Action (Dialing p) A) → Level m → Level n → Level (if b then m else n)
  Level-if true m n h k = h
  Level-if false m n h k = k

pub Level-guard : {p : Platform} (b : Bool) (e : Error) → Level {p = p} (guard b e)
unfolding guard
Level-guard true e = record { at = λ s. refl }
Level-guard false e = record { at = λ s. refl }

module _ {p : Platform} {A B : Type 0} where
  pub Level-continue :
      (r : Result A) (f : A → Action (Dialing p) B)
      → ((a : A) → Level (f a))
      → (s : Dialing p) → (continue r f s).1.open_conns ≡ s.open_conns
  Level-continue (ok a) f h s = (h a).at s
  Level-continue (err e) f h s = refl
  Level-continue (panic t) f h s = refl

  pub Level-bind :
      (m : Action (Dialing p) A) (f : A → Action (Dialing p) B)
      → Level m
      → ((a : A) → Level (f a))
      → Level (m >>= f)
  unfolding ◌>>=◌
  Level-bind m f h k = record { at = λ s. Level-continue (m s).0 f k (m s).1 ∙ h.at s }

  -- What opens a connection, behind what leaves them level.
  pub Opens-continue :
      (r : Result A) (f : A → Action (Dialing p) B) (s : Dialing p) (n : ℕ)
      → s.open_conns ≡ n
      → ((a : A) → r ≡ ok a → Opens (f a))
      → (continue r f s).1.open_conns ≡ after (continue r f s).0 n
  Opens-continue (ok a) f s n e h = (h a refl).at s ∙ ap (after ((f a s).0)) e
  Opens-continue (err x) f s n e h = e
  Opens-continue (panic t) f s n e h = e

  pub Opens-behind :
      (m : Action (Dialing p) A) (f : A → Action (Dialing p) B)
      → Level m
      → ((a : A) (s : Dialing p) → (m s).0 ≡ ok a → Opens (f a))
      → Opens (m >>= f)
  unfolding ◌>>=◌
  Opens-behind m f h k = record {
    at = λ s. Opens-continue (m s).0 f (m s).1 s.open_conns (h.at s) (λ a e. k a s e);
  }

  -- What uses a connection, behind what opens it.
  pub Uses-continue :
      (r : Result A) (f : A → Action (Dialing p) B) (s : Dialing p) (n : ℕ)
      → s.open_conns ≡ after r n
      → ((a : A) → Uses (f a))
      → (continue r f s).1.open_conns ≡ after (continue r f s).0 n
  Uses-continue (ok a) f s n e h = (h a).at s n e
  Uses-continue (err x) f s n e h = e
  Uses-continue (panic t) f s n e h = e

  pub Opens-used :
      (m : Action (Dialing p) A) (f : A → Action (Dialing p) B)
      → Opens m
      → ((a : A) → Uses (f a))
      → Opens (m >>= f)
  unfolding ◌>>=◌
  Opens-used m f h k = record { at = λ s. Uses-continue (m s).0 f (m s).1 s.open_conns (h.at s) k }

pub ruleset level_rules =
    (Level-pure, Level-lift, Level-on_net, Level-attempt, Level-if, Level-guard, Level-bind)
