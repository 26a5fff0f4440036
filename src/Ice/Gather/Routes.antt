-- ===== src/Ice/Gather/Routes.antt =====
-- How the connection of a candidate was made, and the calls that keep what is known of it.
use ziti_livekit_example.Prelude.{◌≡◌, ◌⊎◌, some, List, [], ◌∷◌, ◌++◌, All, inl, inr, Bool-cases}
use ziti_livekit_example.Outcome.{Error}
use ziti_livekit_example.Outcome.Triples.{Triple}
use ziti_livekit_example.Openziti.Platform.{Platform}
use ziti_livekit_example.Stdnet.{System, close, on_conn}
use ziti_livekit_example.Ice.Types.{
  LocConn, ziti, stun_conn, fake_conn, Libs, CandidateRelay, Tally, Agent,
}
use ziti_livekit_example.Ice.Relay.{
  on_lib, on_net, tallied, opening, close_loc, close_conn_and_log, close_client, close_relay,
  close_candidate, append_candidate, has_equal, run, add_candidate,
}
use ziti_livekit_example.Ice.Relay.Calls.{Triple-opening, Meets-result_of, Meets-admit}

module _ {p : Platform} (sys : System p) (lib : Libs p) where
  -- A predicate of the connection of a candidate holds for all of an agent, and its net dials in a
  -- collection of contexts.
  pub record Routed (R : LocConn p lib.Conn → Type 0) (cs : p.CtxCollection) (a : Agent lib)
      : Type 0 where
    pub collection : a.net.world.ziti_contexts ≡ some cs
    pub routes : All (λ (c : CandidateRelay lib). R c.on_close.1) a.local_candidates

  All-append_candidate :
      (R : LocConn p lib.Conn → Type 0) (c : CandidateRelay lib) (k : lib.RelayConn)
      (cs' : List (CandidateRelay lib))
      → R c.on_close.1
      → All (λ (d : CandidateRelay lib). R d.on_close.1) cs'
      → All (λ (d : CandidateRelay lib). R d.on_close.1) (cs' ++ record c { conn = some k } ∷ [])
  All-append_candidate R c k [] h hs = (h, tt)
  All-append_candidate R c k (d ∷ ds) h (x, xs) = (x, All-append_candidate R c k ds h xs)

  module _ {R : LocConn p lib.Conn → Type 0} {cs : p.CtxCollection} where
    Routed-on_net :
        (f : p.Net → p.Net) (a : Agent lib) → Routed R cs a → Routed R cs (on_net sys lib f a)
    unfolding on_net
    Routed-on_net f a h = record { collection = h.collection; routes = h.routes }

    Routed-tallied :
        (f : Tally → Tally) (a : Agent lib) → Routed R cs a → Routed R cs (tallied sys lib f a)
    unfolding tallied
    Routed-tallied f a h = record { collection = h.collection; routes = h.routes }

    Routed-close_loc :
        (c : LocConn p lib.Conn) (a : Agent lib)
        → Routed R cs a
        → Routed R cs (close_loc sys lib c a)
    unfolding close_loc close on_conn on_net
    Routed-close_loc (ziti z) a h = record { collection = h.collection; routes = h.routes }
    Routed-close_loc (stun_conn c) a h = record { collection = h.collection; routes = h.routes }
    Routed-close_loc (fake_conn c) a h = record { collection = h.collection; routes = h.routes }

    pub Routed-close_conn :
        (c : LocConn p lib.Conn) (a : Agent lib)
        → Routed R cs a
        → Routed R cs (close_conn_and_log sys lib c a)
    unfolding close_conn_and_log tallied
    Routed-close_conn c a h =
        let k = Routed-close_loc c a h in record { collection = k.collection; routes = k.routes }

    pub Routed-close_client :
        (c : lib.Client) (a : Agent lib) → Routed R cs a → Routed R cs (close_client sys lib c a)
    unfolding close_client tallied on_net
    Routed-close_client c a h = record { collection = h.collection; routes = h.routes }

    pub Routed-close_relay :
        (c : lib.RelayConn) (a : Agent lib) → Routed R cs a → Routed R cs (close_relay sys lib c a)
    unfolding close_relay tallied on_net
    Routed-close_relay c a h = record { collection = h.collection; routes = h.routes }

    pub Routed-close_candidate :
        (c : CandidateRelay lib) (a : Agent lib)
        → Routed R cs a
        → Routed R cs (close_candidate sys lib c a)
    unfolding close_candidate
    Routed-close_candidate c a h = Routed-close_conn _ _ (Routed-close_client _ a h)

    pub Routed-on_lib :
        {A : Type 0} (f : p.Net → (Error ⊎ A) × p.Net)
        → Triple (Routed R cs) (on_lib sys lib f) (λ x. Routed R cs) (Routed R cs) (Routed R cs)
    unfolding on_lib
    Routed-on_lib f = record {
      at = λ a h.
          Meets-result_of sys lib _ _ (f a.net.world.net).0 _ (Routed-on_net (λ n. (f n).1) a h);
    }

    pub Routed-opening :
        {A : Type 0} (up : Tally → Tally) (f : p.Net → (Error ⊎ A) × p.Net)
        → Triple
            (Routed R cs)
            (opening sys lib up (on_lib sys lib f))
            (λ x. Routed R cs)
            (Routed R cs)
            (Routed R cs)
    Routed-opening up f =
        Triple-opening sys lib up _ (Routed-on_lib f) (λ x a h. Routed-tallied up a h)

    Routed-append :
        (c : CandidateRelay lib) (k : lib.RelayConn) (a : Agent lib)
        → R c.on_close.1
        → Routed R cs a
        → Routed R cs (append_candidate sys lib c k a)
    unfolding append_candidate
    Routed-append c k a r h = elim (Bool-cases (has_equal sys lib c a.local_candidates)) [
      | inl t ↦ rw t (Routed-close_relay k _ (Routed-close_candidate c a h))
      | inr f ↦ rw f (record {
        collection = h.collection;
        routes = All-append_candidate R c k a.local_candidates r h.routes;
      })
    ]

    pub Routed-add_candidate :
        (c : CandidateRelay lib) (k : lib.RelayConn)
        → R c.on_close.1
        → Triple
            (Routed R cs)
            (add_candidate sys lib c k)
            (λ u. Routed R cs)
            (Routed R cs)
            (Routed R cs)
    unfolding add_candidate run
    Routed-add_candidate c k r = record {
      at = λ a h.
          Meets-admit sys lib _ _ _ (lib.refused a.net.world.net) _ a h (Routed-append c k a r h);
    }
