-- ===== src/Ice/Gather/Announcing.antt =====
-- The candidates that the gathering of relay candidates adds, and those that it announces.
use mathlib.Core.List.{append-nil, append_assoc, map-append}
use ziti_livekit_example.Prelude.{◌≡◌, refl, sym, ap, ◌∙◌, ◌⊎◌, some, List, [], ◌++◌, map}
use ziti_livekit_example.Outcome.{
  Error, Result, ok, err, panic, Action, pure, fail, lift, modify, ◌>>=◌,
}
use ziti_livekit_example.Outcome.Keeps.{Keeps, Keeps-bind}
use ziti_livekit_example.Openziti.Platform.{Platform}
use ziti_livekit_example.Stdnet.{System, Net}
use ziti_livekit_example.Ice.Types.{Libs, CandidateRelay, Tally, Agent}
use ziti_livekit_example.Ice.Relay.{on_lib, on_net, tallied, opening, on_err, cleaned}
use ziti_livekit_example.Ice.Gather.{in_net}

module _ {p : Platform} {lib : Libs p} where
  -- From one agent to the next, candidates were added and each of them announced, in their order.
  pub record Grown (a b : Agent lib) : Type 0 where
    pub added : List (CandidateRelay lib)
    pub candidates : b.local_candidates ≡ a.local_candidates ++ added
    pub announced : b.notified ≡ a.notified ++ map some added
    pub same_state : b.gathering_state ≡ a.gathering_state

  -- None was.
  pub record Still (a b : Agent lib) : Type 0 where
    pub candidates : b.local_candidates ≡ a.local_candidates
    pub announced : b.notified ≡ a.notified
    pub same_state : b.gathering_state ≡ a.gathering_state

  pub Grown-Still : (a b : Agent lib) → Still a b → Grown a b
  Grown-Still a b h = record {
    added = [];
    candidates = h.candidates ∙ sym (append-nil a.local_candidates);
    announced = h.announced ∙ sym (append-nil a.notified);
    same_state = h.same_state;
  }

  pub Still-same : (a : Agent lib) → Still a a
  Still-same a = record { candidates = refl; announced = refl; same_state = refl }

  pub Still-chain : (a b c : Agent lib) → Still a b → Still b c → Still a c
  Still-chain a b c h k = record {
    candidates = k.candidates ∙ h.candidates;
    announced = k.announced ∙ h.announced;
    same_state = k.same_state ∙ h.same_state;
  }

  pub Grown-same : (a : Agent lib) → Grown a a
  Grown-same a = Grown-Still a a (Still-same a)

  pub Grown-chain : (a b c : Agent lib) → Grown a b → Grown b c → Grown a c
  Grown-chain a b c h k = record {
    added = h.added ++ k.added;
    candidates =
        k.candidates
        ∙ ap (λ l. l ++ k.added) h.candidates
        ∙ append_assoc a.local_candidates h.added k.added;
    announced =
        k.announced
        ∙ ap (λ l. l ++ map some k.added) h.announced
        ∙ append_assoc a.notified (map some h.added) (map some k.added)
        ∙ ap (λ l. a.notified ++ l) (sym (map-append some h.added k.added));
    same_state = k.same_state ∙ h.same_state;
  }

  -- An action that announces what it adds.
  abbrev pub Announces : {A : Type 0} → Action (Agent lib) A → Type 0
  Announces m = Keeps Grown m

  pub Announces-bind :
      {A B : Type 0} (m : Action (Agent lib) A) (f : A → Action (Agent lib) B)
      → Announces m
      → ((x : A) → Announces (f x))
      → Announces (m >>= f)
  Announces-bind m f h k = Keeps-bind Grown-same Grown-chain m f h k

  pub Announces-pure : {A : Type 0} (x : A) → Announces (pure x)
  unfolding pure
  Announces-pure x = record { at = λ a. Grown-same a }

  pub Announces-lift : {A : Type 0} (r : Result A) → Announces (lift r)
  unfolding lift
  Announces-lift r = record { at = λ a. Grown-same a }

  pub Announces-fail : {A : Type 0} (e : Error) → Announces (fail {A = A} e)
  unfolding fail
  Announces-fail e = record { at = λ a. Grown-same a }

module _ {p : Platform} (sys : System p) (lib : Libs p) where
  pub Announces-on_lib :
      {A : Type 0} (f : p.Net → (Error ⊎ A) × p.Net) → Announces (on_lib sys lib f)
  unfolding on_lib on_net
  Announces-on_lib f = record {
    at = λ a. Grown-Still a _ (record { candidates = refl; announced = refl; same_state = refl });
  }

  pub Announces-in_net : {A : Type 0} (m : Action (Net p) A) → Announces (in_net sys lib m)
  unfolding in_net
  Announces-in_net m = record {
    at = λ a. Grown-Still a _ (record { candidates = refl; announced = refl; same_state = refl });
  }

  Announces-tallied : (up : Tally → Tally) → Announces (modify (tallied sys lib up))
  unfolding modify tallied
  Announces-tallied up = record {
    at = λ a. Grown-Still a _ (record { candidates = refl; announced = refl; same_state = refl });
  }

  pub Announces-opening :
      {A : Type 0} (up : Tally → Tally) (m : Action (Agent lib) A)
      → Announces m
      → Announces (opening sys lib up m)
  unfolding opening
  Announces-opening up m h =
      Announces-bind m _ h λ x. Announces-bind _ _ (Announces-tallied up) λ u. Announces-pure x

  Grown-cleaned :
      {A : Type 0} (r : Result A) (c : Agent lib → Agent lib) (a b : Agent lib)
      → ((d : Agent lib) → Still d (c d))
      → Grown a b
      → Grown a (cleaned sys lib r c b)
  Grown-cleaned (ok x) c a b k h = h
  Grown-cleaned (err e) c a b k h = Grown-chain a b (c b) h (Grown-Still b (c b) (k b))
  Grown-cleaned (panic t) c a b k h = h

  pub Announces-on_err :
      {A : Type 0} (m : Action (Agent lib) A) (c : Agent lib → Agent lib)
      → Announces m
      → ((d : Agent lib) → Still d (c d))
      → Announces (on_err sys lib m c)
  unfolding on_err
  Announces-on_err m c h k = record { at = λ a. Grown-cleaned (m a).0 c a (m a).1 k (h.at a) }

pub ruleset announce_rules = (
  Announces-pure, Announces-lift, Announces-fail, Announces-on_lib, Announces-in_net,
  Announces-opening, Announces-bind,
)
