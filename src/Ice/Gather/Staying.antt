-- ===== src/Ice/Gather/Staying.antt =====
-- What the goroutine of a URL keeps of the candidates' connections, once it has one.

use ziti_livekit_example.Prelude.{◌⊎◌, inl, inr, Option, none, some}
use ziti_livekit_example.Outcome.{Error, Result, ok, err, panic, Action, lift, attempt, settle}
use ziti_livekit_example.Outcome.Triples.{Meets, Triple, Triple-bind, Triple-pure}
use ziti_livekit_example.Openziti.Platform.{Platform}
use ziti_livekit_example.Stdnet.{System}
use ziti_livekit_example.Ice.Types.{
  gathering, complete, GatheringState, new, Uri, NetworkType, LocConn, Libs, CandidateRelay,
  CandidateRelayConfig, Agent,
}
use ziti_livekit_example.Ice.Relay.{run, result_of, candidate_of, candidate_at, new_candidate_relay}
use ziti_livekit_example.Ice.Relay.Calls.{Triple-on_err, Meets-admit}
use ziti_livekit_example.Ice.Gather.{
  Local, give_up, relay_config, relay_on, one_client, one_relay, go, Use, step, skip, stop, start,
  set_gathering_state, change_gathering_state,
}
use ziti_livekit_example.Ice.Gather.Routes.{
  Routed, Routed-on_lib, Routed-opening, Routed-close_conn, Routed-close_client, Routed-close_relay,
  Routed-close_candidate, Routed-add_candidate,
}

module _ {p : Platform} (sys : System p) (lib : Libs p) where
  module _ (R : LocConn p lib.Conn → Type 0) (cs : p.CtxCollection) where
    -- A candidate with a route, in an agent whose candidates have one.
    abbrev Candidate : CandidateRelay lib → Agent lib → Type 0
    Candidate c a = Routed sys lib R cs a × R c.on_close.1

    -- An action that keeps the routes of the candidates.
    abbrev pub Stays : {A : Type 0} → Action (Agent lib) A → Type 0
    Stays m =
        Triple (Routed sys lib R cs) m (λ x. Routed sys lib R cs) (Routed sys lib R cs)
          (Routed sys lib R cs)

    Meets-candidate_of :
        (config : CandidateRelayConfig lib) (x : Error ⊎ NetworkType) (a : Agent lib)
        → R config.on_close.1
        → Routed sys lib R cs a
        → Meets Candidate
            (Routed sys lib R cs)
            (Routed sys lib R cs)
            (candidate_of sys lib config (result_of x))
            a
    unfolding result_of
    Meets-candidate_of config (inl e) a k h = h
    Meets-candidate_of config (inr t) a k h = (h, k)

    Meets-candidate_at :
        (config : CandidateRelayConfig lib) (o : Option lib.Ip) (a : Agent lib)
        → R config.on_close.1
        → Routed sys lib R cs a
        → Meets Candidate
            (Routed sys lib R cs)
            (Routed sys lib R cs)
            (candidate_at sys lib config o)
            a
    Meets-candidate_at config none a k h = h
    Meets-candidate_at config (some ip) a k h = Meets-candidate_of config _ a k h

    Triple-new_candidate_relay :
        (config : CandidateRelayConfig lib)
        → R config.on_close.1
        → Triple
            (Routed sys lib R cs)
            (lift (new_candidate_relay sys lib config))
            Candidate
            (Routed sys lib R cs)
            (Routed sys lib R cs)
    unfolding new_candidate_relay lift
    Triple-new_candidate_relay config k = record {
      at = λ a h. Meets-candidate_at config (lib.parse_ip config.address) a k h;
    }

    Routed-give_up :
        (l : Local sys lib) (c : lib.Client) (a : Agent lib)
        → Routed sys lib R cs a
        → Routed sys lib R cs (give_up sys lib l c a)
    unfolding give_up
    Routed-give_up l c a h = Routed-close_conn sys lib _ _ (Routed-close_client sys lib c a h)

    pub Stays-relay_on :
        (url : Uri) (l : Local sys lib) → R l.loc_conn → Stays (relay_on sys lib url l)
    unfolding relay_on
    Stays-relay_on url l k =
        Triple-bind _ _
          (Triple-on_err sys lib _ _ (Routed-opening sys lib one_client _)
            (Routed-close_conn sys lib l.loc_conn))
          λ client.
            Triple-bind _ _
              (Triple-on_err sys lib _ _ (Routed-on_lib sys lib _) (Routed-give_up l client))
              λ u.
                Triple-bind _ _
                  (Triple-on_err sys lib _ _ (Routed-opening sys lib one_relay _)
                    (Routed-give_up l client))
                  λ relay_conn.
                    Triple-bind {Q = Candidate} _ _
                      (Triple-on_err sys lib _ _
                        (Triple-new_candidate_relay
                          (relay_config sys lib l client (lib.relay_addr relay_conn)) k)
                        λ a h.
                          Routed-give_up l client _ (Routed-close_relay sys lib relay_conn a h))
                      λ candidate. record {
                        at = λ a h.
                            (Triple-on_err sys lib _ _
                                (Routed-add_candidate sys lib candidate relay_conn h.1)
                                (λ b q.
                                  Routed-close_candidate sys lib candidate _
                                    (Routed-close_relay sys lib relay_conn b q))).at
                              a h.0;
                      }

    settled_as :
        (r : Result (Unit {0})) (a : Agent lib)
        → Meets (λ x. Routed sys lib R cs) (Routed sys lib R cs) (Routed sys lib R cs) r a
        → Meets
            (λ x. Routed sys lib R cs)
            (Routed sys lib R cs)
            (Routed sys lib R cs)
            (settle r a).0
            (settle r a).1
    settled_as (ok x) a h = h
    settled_as (err e) a h = h
    settled_as (panic t) a h = h

    Stays-go : (m : Action (Agent lib) (Unit {0})) → Stays m → Stays (go m)
    unfolding go attempt
    Stays-go m h =
        Triple-bind _ _ (record { at = λ a q. settled_as (m a).0 (m a).1 (h.at a q) })
          λ r. Triple-pure _ (λ a q. q)

    pub Stays-step :
        (u : Use) (m rest : Action (Agent lib) (Unit {0}))
        → Stays m
        → Stays rest
        → Stays (step u m rest)
    Stays-step skip m rest h k = k
    Stays-step stop m rest h k = Triple-pure _ (λ a q. q)
    Stays-step start m rest h k = Triple-bind _ _ (Stays-go m h) (λ u. k)

    Routed-change_gathering_state :
        (s : GatheringState) (a : Agent lib)
        → Routed sys lib R cs a
        → Routed sys lib R cs (change_gathering_state sys lib s a)
    unfolding change_gathering_state
    Routed-change_gathering_state complete a h = record {
      collection = h.collection;
      routes = h.routes;
    }
    Routed-change_gathering_state gathering a h = record {
      collection = h.collection;
      routes = h.routes;
    }
    Routed-change_gathering_state new a h = record { collection = h.collection; routes = h.routes }

    pub Stays-set_gathering_state : (s : GatheringState) → Stays (set_gathering_state sys lib s)
    unfolding set_gathering_state run
    Stays-set_gathering_state s = record {
      at = λ a h.
          Meets-admit sys lib _ _ _ (lib.refused a.net.world.net) _ a h
            (Routed-change_gathering_state s a h);
    }
