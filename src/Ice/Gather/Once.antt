-- ===== src/Ice/Gather/Once.antt =====
-- A whole gathering of relay candidates, and what an agent does when it is asked for a second one.
use mathlib.Core.Path.{subst}
use ziti_livekit_example.Prelude.{
  ◌≡◌, refl, sym, ap, ◌∙◌, Option, none, some, List, [], ◌∷◌, ◌++◌, map,
}
use ziti_livekit_example.Outcome.{Error, reason, ok, err, Action, ◌>>=◌}
use ziti_livekit_example.Outcome.Inversion.{bind-eq-ok, pure-eq-ok}
use ziti_livekit_example.Openziti.Platform.{Platform}
use ziti_livekit_example.Stdnet.{System}
use ziti_livekit_example.Ice.Types.{
  CandidateType, relay, GatheringState, gathering, complete, Libs, CandidateRelay, Agent, Config,
}
use ziti_livekit_example.Ice.Relay.{run, admit}
use ziti_livekit_example.Ice.Gather.{
  gather, gather_types, gather_candidates, check_gather, set_gathering_state,
  change_gathering_state, is_new, is_complete,
}
use ziti_livekit_example.Ice.Gather.Announcing.{Grown}
use ziti_livekit_example.Ice.Gather.Trickle.{Announces-gather_relay}

module _ {p : Platform} (sys : System p) (lib : Libs p) where
  admit-eq-ok :
      (o : Option Error) (task : Agent lib → Agent lib) (a : Agent lib) {u : Unit {0}}
      {b : Agent lib}
      → admit sys lib o task a ≡ (ok u, b)
      → task a ≡ b
  admit-eq-ok none task a h = ap (λ x. x.1) h
  admit-eq-ok (some e) task a h = cc

  set_gathering_state-eq-ok :
      (s : GatheringState) (a : Agent lib) {u : Unit {0}} {b : Agent lib}
      → set_gathering_state sys lib s a ≡ (ok u, b)
      → change_gathering_state sys lib s a ≡ b
  unfolding set_gathering_state run
  set_gathering_state-eq-ok s a h = admit-eq-ok (lib.refused a.net.world.net) _ a h

  -- A whole gathering: the candidates that it added, all announced in their order, then the nil that ends them.
  pub record Gathered (a b : Agent lib) : Type 0 where
    pub added : List (CandidateRelay lib)
    pub candidates : b.local_candidates ≡ a.local_candidates ++ added
    pub announced : b.notified ≡ a.notified ++ map some added ++ none ∷ []
    pub ended : b.gathering_state ≡ complete

  Gathered-of :
      (a c : Agent lib)
      → Grown (change_gathering_state sys lib gathering a) c
      → Gathered a (change_gathering_state sys lib complete c)
  unfolding change_gathering_state is_complete
  Gathered-of a c h = record {
    added = h.added;
    candidates = h.candidates;
    announced = rw h.same_state (ap (λ l. l ++ none ∷ []) h.announced);
    ended = refl;
  }

  module _ (others : CandidateType → Action (Agent lib) (Unit {0})) where
    gather_types-relay :
        (cfg : Config lib) (a : Agent lib) {u : Unit {0}} {b : Agent lib}
        → gather_types sys lib others cfg (relay ∷ []) a ≡ (ok u, b)
        → Grown a b
    unfolding gather_types
    gather_types-relay cfg a {u} {b} h =
        let (v, c, h1, k1) = bind-eq-ok _ _ a h in
        let same : c ≡ b = (pure-eq-ok k1).1 in
        rw (sym same)
          (rw (sym (ap (λ x. x.1) h1)) ((Announces-gather_relay sys lib cfg cfg.urls).at a))

    gather-Gathered :
        (cfg : Config lib) (a : Agent lib) {u : Unit {0}} {b : Agent lib}
        → cfg.candidate_types ≡ relay ∷ []
        → gather sys lib others cfg a ≡ (ok u, b)
        → Gathered a b
    unfolding gather
    gather-Gathered cfg a {u} {b} e h =
        let (u1, c, h1, k1) = bind-eq-ok _ _ a h in
        let (u2, d, h2, k2) = bind-eq-ok _ _ c k1 in
        let began = set_gathering_state-eq-ok gathering a h1 in
        let ended = set_gathering_state-eq-ok complete d k2 in
        let grown =
          gather_types-relay cfg c (ap (λ ts. gather_types sys lib others cfg ts c) (sym e) ∙ h2) in
        subst (Gathered a) ended (Gathered-of a d (subst (λ x. Grown x d) (sym began) grown))

    gather_candidates-refused :
        (b : Agent lib)
        → b.gathering_state ≡ complete
        → lib.refused b.net.world.net ≡ none
        → gather_candidates sys lib others b
          ≡ (err (reason "attempting to gather candidates during gathering state"), b)
    unfolding gather_candidates run check_gather is_new ◌>>=◌
    gather_candidates-refused b e h = rw h (rw e refl)

    -- A gathering of relay candidates only that comes to its end has announced each candidate that it added
    -- to the agent, in the order of their adding, and then, once, nil; where the agent's loop goes on,
    -- GatherCandidates then refuses to gather again and changes nothing.
    pub gather_once :
        (cfg : Config lib) (a : Agent lib) {u : Unit {0}} {b : Agent lib}
        → cfg.candidate_types ≡ relay ∷ []
        → gather sys lib others cfg a ≡ (ok u, b)
        → lib.refused b.net.world.net ≡ none
        → Gathered a b
          × (gather_candidates sys lib others b
              ≡ (err (reason "attempting to gather candidates during gathering state"), b))
    gather_once cfg a {u} {b} e h r =
        let g = gather-Gathered cfg a e h in (g, gather_candidates-refused b g.ended r)
