-- ===== src/Ice/Gather/Trickle.antt =====
-- What the gathering of relay candidates announces, from its start to its end.

use ziti_livekit_example.Prelude.{
  refl, String, ◌⊎◌, Bool, inl, inr, Bool-cases, Option, none, some, List, [], ◌∷◌,
}
use ziti_livekit_example.Outcome.{Error, Result, ok, err, panic, Action, attempt, settle}
use ziti_livekit_example.Openziti.Platform.{Platform}
use ziti_livekit_example.Stdnet.{System}
use ziti_livekit_example.Ice.Types.{
  Uri, Scheme, Proto, udp, tcp, unknown_proto, turn, turns, stun, stuns, unknown_scheme, LocConn,
  ziti, stun_conn, fake_conn, Libs, CandidateRelay, Agent, Config,
}
use ziti_livekit_example.Ice.Relay.{
  on_net, tallied, close_loc, close_conn_and_log, close_client, close_relay, close_candidate,
  append_candidate, has_equal, admit, run, add_candidate,
}
use ziti_livekit_example.Ice.Gather.{
  Local, one_client, one_relay, listen_udp, dial_tcp, tcp_addr, over_tcp, over_tls, over_dtls,
  over_proxy, local_conn, give_up, relay_on, relay_url, go, Use, skip, stop, start, step, use_of,
  gather_relay,
}
use ziti_livekit_example.Ice.Gather.Announcing.{
  Grown, Still, Grown-Still, Still-chain, Grown-same, Announces, Announces-bind, Announces-pure,
  Announces-lift, Announces-fail, Announces-on_lib, Announces-opening, Announces-on_err,
  announce_rules,
}

module _ {p : Platform} (sys : System p) (lib : Libs p) where
  Still-close_loc : (c : LocConn p lib.Conn) (a : Agent lib) → Still a (close_loc sys lib c a)
  unfolding close_loc on_net
  Still-close_loc (ziti z) a = record { candidates = refl; announced = refl; same_state = refl }
  Still-close_loc (stun_conn c) a = record {
    candidates = refl;
    announced = refl;
    same_state = refl;
  }
  Still-close_loc (fake_conn c) a = record {
    candidates = refl;
    announced = refl;
    same_state = refl;
  }

  Still-close_conn :
      (c : LocConn p lib.Conn) (a : Agent lib) → Still a (close_conn_and_log sys lib c a)
  unfolding close_conn_and_log tallied
  Still-close_conn c a =
      let h = Still-close_loc c a in
      record { candidates = h.candidates; announced = h.announced; same_state = h.same_state }

  Still-close_client : (c : lib.Client) (a : Agent lib) → Still a (close_client sys lib c a)
  unfolding close_client tallied on_net
  Still-close_client c a = record { candidates = refl; announced = refl; same_state = refl }

  Still-close_relay : (c : lib.RelayConn) (a : Agent lib) → Still a (close_relay sys lib c a)
  unfolding close_relay tallied on_net
  Still-close_relay c a = record { candidates = refl; announced = refl; same_state = refl }

  Still-close_candidate :
      (c : CandidateRelay lib) (a : Agent lib) → Still a (close_candidate sys lib c a)
  unfolding close_candidate
  Still-close_candidate c a =
      Still-chain a _ _ (Still-close_client c.on_close.0 a) (Still-close_conn c.on_close.1 _)

  Still-give_up :
      (l : Local sys lib) (c : lib.Client) (a : Agent lib) → Still a (give_up sys lib l c a)
  unfolding give_up
  Still-give_up l c a = Still-chain a _ _ (Still-close_client c a) (Still-close_conn l.loc_conn _)

  Grown-append :
      (c : CandidateRelay lib) (k : lib.RelayConn) (a : Agent lib)
      → Grown a (append_candidate sys lib c k a)
  unfolding append_candidate
  Grown-append c k a = elim (Bool-cases (has_equal sys lib c a.local_candidates)) [
    | inl t ↦
        rw t
          (Grown-Still a _ (Still-chain a _ _ (Still-close_candidate c a) (Still-close_relay k _)))
    | inr f ↦ rw f (record {
      added = record c { conn = some k } ∷ [];
      candidates = refl;
      announced = refl;
      same_state = refl;
    })
  ]

  Grown-admit :
      (o : Option Error) (task : Agent lib → Agent lib) (a : Agent lib)
      → Grown a (task a)
      → Grown a (admit sys lib o task a).1
  Grown-admit none task a h = h
  Grown-admit (some e) task a h = Grown-same a

  Announces-add_candidate :
      (c : CandidateRelay lib) (k : lib.RelayConn) → Announces (add_candidate sys lib c k)
  unfolding add_candidate run
  Announces-add_candidate c k = record {
    at = λ a. Grown-admit (lib.refused a.net.world.net) _ a (Grown-append c k a);
  }

  Announces-over_proxy :
      (o : Option (String → String → p.Net → (Error ⊎ lib.Conn) × p.Net)) (t : String) (url : Uri)
      (direct : Action (Agent lib) (Local sys lib))
      → Announces direct
      → Announces (over_proxy sys lib o t url direct)
  unfolding over_proxy
  Announces-over_proxy none t url direct h = h
  Announces-over_proxy (some dial) t url direct h = search announce_rules

  Announces-over_tls : (b : Bool) (url : Uri) → Announces (over_tls sys lib b url)
  unfolding over_tls dial_tcp tcp_addr
  Announces-over_tls b url = Announces-bind _ _ (search announce_rules) λ c.
      Announces-bind _ _
        (Announces-on_err sys lib _ _ (Announces-on_lib sys lib _) (Still-close_conn (stun_conn c)))
        (λ u. Announces-pure _)

  Announces-local_conn :
      (cfg : Config lib) (url : Uri) (t : Proto) (s : Scheme)
      → Announces (local_conn sys lib cfg url t s)
  unfolding local_conn listen_udp over_tcp over_dtls dial_tcp tcp_addr
  Announces-local_conn cfg url udp turn = search announce_rules
  Announces-local_conn cfg url tcp turn =
      Announces-over_proxy cfg.proxy_dialer _ url _ (search announce_rules)
  Announces-local_conn cfg url udp turns = search announce_rules
  Announces-local_conn cfg url tcp turns =
      Announces-over_proxy cfg.proxy_dialer _ url _ (Announces-over_tls _ url)
  Announces-local_conn cfg url udp stun = Announces-fail _
  Announces-local_conn cfg url udp stuns = Announces-fail _
  Announces-local_conn cfg url udp unknown_scheme = Announces-fail _
  Announces-local_conn cfg url tcp stun = Announces-fail _
  Announces-local_conn cfg url tcp stuns = Announces-fail _
  Announces-local_conn cfg url tcp unknown_scheme = Announces-fail _
  Announces-local_conn cfg url unknown_proto s = Announces-fail _

  Announces-relay_on : (url : Uri) (l : Local sys lib) → Announces (relay_on sys lib url l)
  unfolding relay_on
  Announces-relay_on url l =
      Announces-bind _ _
        (Announces-on_err sys lib _ _
          (Announces-opening sys lib one_client _ (Announces-on_lib sys lib _))
          (Still-close_conn l.loc_conn))
        λ client.
          Announces-bind _ _
            (Announces-on_err sys lib _ _ (Announces-on_lib sys lib _) (Still-give_up l client))
            λ u.
              Announces-bind _ _
                (Announces-on_err sys lib _ _
                  (Announces-opening sys lib one_relay _ (Announces-on_lib sys lib _))
                  (Still-give_up l client))
                λ relay_conn.
                  Announces-bind _ _
                    (Announces-on_err sys lib _ _ (Announces-lift _) λ d.
                      Still-chain d _ _ (Still-close_relay relay_conn d) (Still-give_up l client _))
                    λ candidate.
                      Announces-on_err sys lib _ _ (Announces-add_candidate candidate relay_conn)
                        λ d.
                          Still-chain d _ _ (Still-close_relay relay_conn d)
                            (Still-close_candidate candidate _)

  Announces-relay_url : (cfg : Config lib) (url : Uri) → Announces (relay_url sys lib cfg url)
  unfolding relay_url
  Announces-relay_url cfg url =
      Announces-bind _ _ (Announces-local_conn cfg url url.proto url.scheme)
        (Announces-relay_on url)

  settled_state : (r : Result (Unit {0})) (a b : Agent lib) → Grown a b → Grown a (settle r b).1
  settled_state (ok x) a b h = h
  settled_state (err e) a b h = h
  settled_state (panic t) a b h = h

  Announces-go : (m : Action (Agent lib) (Unit {0})) → Announces m → Announces (go m)
  unfolding go attempt
  Announces-go m h =
      Announces-bind _ _ (record { at = λ a. settled_state (m a).0 a (m a).1 (h.at a) })
        λ r. Announces-pure tt

  Announces-step :
      (u : Use) (m rest : Action (Agent lib) (Unit {0}))
      → Announces m
      → Announces rest
      → Announces (step u m rest)
  Announces-step skip m rest h k = k
  Announces-step stop m rest h k = Announces-pure tt
  Announces-step start m rest h k = Announces-bind _ _ (Announces-go m h) (λ u. k)

  -- Each candidate that the gathering of relay candidates adds is announced, in the order of their
  -- adding, and nothing else is.
  pub Announces-gather_relay :
      (cfg : Config lib) (urls : List Uri) → Announces (gather_relay sys lib cfg urls)
  unfolding gather_relay
  Announces-gather_relay cfg [] = Announces-pure tt
  Announces-gather_relay cfg (url ∷ urls) =
      Announces-step (use_of url) _ _ (Announces-relay_url cfg url)
        (Announces-gather_relay cfg urls)
