-- ===== src/Ice/Relay/Calls.antt =====
-- The calls of the agent, by what they do to how much is open.
use ziti_livekit_example.Prelude.{ℕ, ◌+◌, String, inl, inr, Option, none, some, ◌⊎◌, ◌≢◌}
use ziti_livekit_example.Outcome.{Error, Result, ok, err, panic, Action, ◌>>=◌}
use ziti_livekit_example.Outcome.Triples.{Meets, Triple, Triple-bind}
use ziti_livekit_example.Openziti.Platform.{Platform}
use ziti_livekit_example.Stdnet.{System}
use ziti_livekit_example.Ice.Types.{
  Libs, CandidateRelay, CandidateRelayConfig, NetworkType, Tally, Agent,
}
use ziti_livekit_example.Ice.Relay.{
  result_of, new_candidate_relay, on_lib, opening, on_err, run, add_candidate, tallied, admit,
  candidate_of, candidate_at, cleaned,
}
use ziti_livekit_example.Ice.Relay.Holdings.{Has, Settled, Has-on_lib, Settled-append}

module _ {p : Platform} (sys : System p) (lib : Libs p) where
  pub Meets-cleaned :
      {A : Type 0} (Q : A → Agent lib → Type 0) (E F X : Agent lib → Type 0) (r : Result A)
      (c : Agent lib → Agent lib) (a : Agent lib)
      → ((b : Agent lib) → E b → F (c b))
      → Meets Q E X r a
      → Meets Q F X r (cleaned sys lib r c a)
  Meets-cleaned Q E F X (ok x) c a k h = h
  Meets-cleaned Q E F X (err e) c a k h = k a h
  Meets-cleaned Q E F X (panic t) c a k h = h

  pub Triple-on_err :
      {A : Type 0} {P : Agent lib → Type 0} {Q : A → Agent lib → Type 0}
      {E F X : Agent lib → Type 0} (m : Action (Agent lib) A) (c : Agent lib → Agent lib)
      → Triple P m Q E X
      → ((b : Agent lib) → E b → F (c b))
      → Triple P (on_err sys lib m c) Q F X
  unfolding on_err
  Triple-on_err m c h k = record {
    at = λ a q. Meets-cleaned _ _ _ _ (m a).0 c (m a).1 k (h.at a q);
  }

  pub Meets-result_of :
      {A : Type 0} (P X : Agent lib → Type 0) (x : Error ⊎ A) (a : Agent lib)
      → P a
      → Meets (λ y. P) P X (result_of x) a
  unfolding result_of
  Meets-result_of P X (inl e) a h = h
  Meets-result_of P X (inr x) a h = h

  pub Triple-on_lib :
      {A : Type 0} {n m r l : ℕ} {X : Agent lib → Type 0} (f : p.Net → (Error ⊎ A) × p.Net)
      → Triple (Has n m r l) (on_lib sys lib f) (λ x. Has n m r l) (Has n m r l) X
  unfolding on_lib
  Triple-on_lib f = record {
    at = λ a h. Meets-result_of _ _ (f a.net.world.net).0 _ (Has-on_lib sys lib f a h);
  }

  pub Triple-opening :
      {A : Type 0} {P : Agent lib → Type 0} {Q R : A → Agent lib → Type 0}
      {E X : Agent lib → Type 0} (up : Tally → Tally) (m : Action (Agent lib) A)
      → Triple P m Q E X
      → ((x : A) (a : Agent lib) → Q x a → R x (tallied sys lib up a))
      → Triple P (opening sys lib up m) R E X
  unfolding opening ◌>>=◌
  Triple-opening up m h k = Triple-bind m _ h (λ x. record { at = λ a q. k x a q })

  pub Meets-admit :
      (P Q X : Agent lib → Type 0) (o : Option Error) (task : Agent lib → Agent lib) (a : Agent lib)
      → P a
      → Q (task a)
      → Meets (λ u. Q) P X (admit sys lib o task a).0 (admit sys lib o task a).1
  Meets-admit P Q X none task a h k = k
  Meets-admit P Q X (some e) task a h k = h

  pub Triple-add_candidate :
      {n m r l : ℕ} {X : Agent lib → Type 0} (c : CandidateRelay lib) (k : lib.RelayConn)
      → Triple
          (Has (n + 1) (m + 1) (r + 1) l)
          (add_candidate sys lib c k)
          (λ u. Settled n m r l)
          (Has (n + 1) (m + 1) (r + 1) l)
          X
  unfolding add_candidate run
  Triple-add_candidate c k = record {
    at = λ a h.
        Meets-admit _ _ _ (lib.refused a.net.world.net) _ a h (Settled-append sys lib c k a h);
  }

  candidate_of-calm :
      (config : CandidateRelayConfig lib) (x : Error ⊎ NetworkType) (t : String)
      → candidate_of sys lib config (result_of x) ≢ panic t
  unfolding result_of
  candidate_of-calm config (inl e) t h = cc
  candidate_of-calm config (inr x) t h = cc

  candidate_at-calm :
      (config : CandidateRelayConfig lib) (o : Option lib.Ip) (t : String)
      → candidate_at sys lib config o ≢ panic t
  candidate_at-calm config none t h = cc
  candidate_at-calm config (some ip) t h = candidate_of-calm config _ t h

  pub new_candidate_relay-calm :
      (config : CandidateRelayConfig lib) (t : String)
      → new_candidate_relay sys lib config ≢ panic t
  unfolding new_candidate_relay
  new_candidate_relay-calm config t = candidate_at-calm config _ t
