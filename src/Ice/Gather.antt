-- ===== src/Ice/Gather.antt =====
-- The gathering of candidates of lib/pion-ice/gather.go. The goroutines of the URLs and of the types of
-- candidates run one after another, in the order in which they are started.
pub mod Clients
pub mod Connections
pub mod Routes
pub mod Dialling
pub mod Staying
pub mod Overlay
pub mod Order
pub mod Announcing
pub mod Trickle
pub mod Once
pub mod Balance
use ziti_livekit_example.Prelude.{
  ℕ, ◌+◌, String, ◌==◌, Bool, true, false, not, ◌&&◌, ◌||◌, if◌then◌else◌, Option, none, some, List,
  [], ◌∷◌, ◌++◌, ◌⊎◌,
}
use ziti_livekit_example.Outcome.{
  Error, reason, Result, ok, err, panic, Action, pure, fail, lift, modify, attempt, guard, ◌>>=◌,
  ◌>>◌,
}
use ziti_livekit_example.Openziti.Platform.{Platform}
use ziti_livekit_example.Stdnet.{System, Net, listen_packet, local_addr}
use ziti_livekit_example.Ice.Types.{
  Scheme, stun, stuns, turn, turns, unknown_scheme, Proto, udp, tcp, unknown_proto, Uri,
  CandidateType, unspecified, host, server_reflexive, peer_reflexive, relay, GatheringState, new,
  gathering, complete, LocConn, ziti, stun_conn, fake_conn, ClientConfig, Libs,
  CandidateRelayConfig, CandidateRelay, Tally, Agent, Config,
}
use ziti_livekit_example.Ice.Relay.{
  result_of, new_candidate_relay, on_lib, opening, on_err, close_client, close_relay,
  close_conn_and_log, close_candidate, run, add_candidate,
}

unfoldable pub is_new : GatheringState → Bool
is_new new = true
is_new _ = false

unfoldable pub is_complete : GatheringState → Bool
is_complete complete = true
is_complete _ = false

abbrev pub one_conn : Tally → Tally
one_conn t = record t { conns = t.conns + 1 }

abbrev pub one_client : Tally → Tally
one_client t = record t { clients = t.clients + 1 }

abbrev pub one_relay : Tally → Tally
one_relay t = record t { relays = t.relays + 1 }

-- A goroutine: only its panic is seen outside.
unfoldable pub go : {S : Type 0} → Action S (Unit {0}) → Action S (Unit {0})
go m = do r ← attempt m; pure tt

-- What gatherCandidatesRelay makes of a URL before it starts a goroutine
pub data Use : Type 0 where
  skip stop start : Use

unfoldable pub is_turn : Scheme → Bool
is_turn turn = true
is_turn turns = true
is_turn _ = false

unfoldable pub use_of : Uri → Use
unfolding is_turn
use_of url =
    if not (is_turn url.scheme)
    then skip
    else if url.username == ""
    then stop
    else if url.password == ""
    then stop
    else start

abbrev pub step :
    {S : Type 0} → Use → Action S (Unit {0}) → Action S (Unit {0}) → Action S (Unit {0})
step skip m rest = rest
step stop m rest = pure tt
step start m rest = go m >> rest

module _ {p : Platform} (sys : System p) (lib : Libs p) where
  -- A connection to a TURN server with its local address and the protocol spoken on it.
  pub record Local : Type 0 where
    pub loc_conn : LocConn p lib.Conn
    pub rel : String × ℕ
    pub relay_protocol : String

  unfoldable pub turn_server_addr : Uri → String
  turn_server_addr url = lib.host_port url.host url.port

  unfoldable pub in_net : {A : Type 0} → Action (Net p) A → Action (Agent lib) A
  in_net m a = let (r, n) = m a.net in (r, record a { net = n })

  -- The first case: a "turn" URL over UDP
  unfoldable pub listen_udp : Uri → Action (Agent lib) Local
  unfolding turn_server_addr in_net opening
  listen_udp url = do
    z ← opening sys lib one_conn (in_net (listen_packet sys "udp4" (turn_server_addr url)))
    pure (record { loc_conn = ziti z; rel = local_addr sys z; relay_protocol = "udp" })

  abbrev pub over_stun : String → lib.Conn → Local
  over_stun protocol conn = record {
    loc_conn = stun_conn conn;
    rel = lib.local_addr conn;
    relay_protocol = protocol;
  }

  -- The third case, for a "turn" URL over TCP, and the second if there is a proxy's dialer
  unfoldable pub tcp_addr : Uri → Action (Agent lib) String
  unfolding result_of turn_server_addr
  tcp_addr url = lift (result_of (lib.resolve_tcp_addr "tcp4" (turn_server_addr url)))

  unfoldable pub dial_tcp : Uri → Action (Agent lib) lib.Conn
  unfolding tcp_addr on_lib opening
  dial_tcp url = do
    addr ← tcp_addr url
    opening sys lib one_conn (on_lib sys lib (lib.dial_tcp "tcp4" addr))

  unfoldable pub over_tcp : Uri → Action (Agent lib) Local
  unfolding dial_tcp
  over_tcp url = do conn ← dial_tcp url; pure (over_stun "tcp" conn)

  -- The fifth case: a "turns" URL over TCP
  unfoldable pub over_tls : Bool → Uri → Action (Agent lib) Local
  unfolding dial_tcp on_lib on_err close_conn_and_log
  over_tls insecure url = do
    tcp_conn ← dial_tcp url
    let conn = lib.tls_client tcp_conn url.host insecure
    on_err sys lib (on_lib sys lib (lib.handshake conn))
        (close_conn_and_log sys lib (stun_conn tcp_conn))
    pure (over_stun "tls" conn)

  -- The fourth case: a "turns" URL over UDP
  unfoldable pub over_dtls : Bool → Uri → Action (Agent lib) Local
  unfolding turn_server_addr result_of on_lib opening
  over_dtls insecure url = do
    addr ← lift (result_of (lib.resolve_udp_addr "udp4" (turn_server_addr url)))
    udp_conn ← opening sys lib one_conn (on_lib sys lib (lib.dial_udp "udp" addr))
    conn ← on_lib sys lib (lib.dtls_client udp_conn url.host insecure)
    pure (record { loc_conn = fake_conn conn; rel = lib.local_addr conn; relay_protocol = "dtls" })

  -- The second case, or the one that holds where there is no proxy's dialer
  unfoldable pub over_proxy :
      Option (String → String → p.Net → (Error ⊎ lib.Conn) × p.Net)
      → String
      → Uri
      → Action (Agent lib) Local
      → Action (Agent lib) Local
  unfolding turn_server_addr on_lib opening
  over_proxy none protocol url direct = direct
  over_proxy (some dial) protocol url direct = do
    conn ← opening sys lib one_conn (on_lib sys lib (dial "tcp4" (turn_server_addr url)))
    pure (over_stun protocol conn)

  -- The switch that makes the connection
  unfoldable pub local_conn : Config lib → Uri → Proto → Scheme → Action (Agent lib) Local
  unfolding listen_udp over_proxy over_tcp over_dtls over_tls
  local_conn cfg url udp turn = listen_udp url
  local_conn cfg url tcp turn = over_proxy cfg.proxy_dialer "tcp" url (over_tcp url)
  local_conn cfg url udp turns = over_dtls cfg.insecure_skip_verify url
  local_conn cfg url tcp turns =
      over_proxy cfg.proxy_dialer "tls" url (over_tls cfg.insecure_skip_verify url)
  local_conn cfg url _ _ = fail (reason "Unable to handle URL in gatherCandidatesRelay")

  abbrev pub client_config : Uri → Local → ClientConfig p lib.Conn
  client_config url l = record {
    turn_server_addr = turn_server_addr url;
    conn = l.loc_conn;
    username = url.username;
    password = url.password;
  }

  abbrev pub relay_config : Local → lib.Client → String × ℕ → CandidateRelayConfig lib
  relay_config l client addr = record {
    network = "udp4";
    address = addr.0;
    port = addr.1;
    component = 1;
    rel_addr = l.rel.0;
    rel_port = l.rel.1;
    relay_protocol = l.relay_protocol;
    on_close = (client, l.loc_conn);
  }

  -- What is closed once there is a client.
  unfoldable pub give_up : Local → lib.Client → Agent lib → Agent lib
  unfolding close_conn_and_log close_client
  give_up l client a = close_conn_and_log sys lib l.loc_conn (close_client sys lib client a)

  -- What follows the switch, on a connection
  unfoldable pub relay_on : Uri → Local → Action (Agent lib) (Unit {0})
  unfolding on_lib opening on_err close_conn_and_log close_client close_relay close_candidate
      new_candidate_relay add_candidate turn_server_addr give_up
  relay_on url l = do
    client ←
        on_err sys lib
          (opening sys lib one_client (on_lib sys lib (lib.new_client (client_config url l))))
          (close_conn_and_log sys lib l.loc_conn)
    on_err sys lib (on_lib sys lib (lib.listen client)) (give_up l client)
    relay_conn ←
        on_err sys lib (opening sys lib one_relay (on_lib sys lib (lib.allocate client)))
          (give_up l client)
    candidate ←
        on_err sys lib
          (lift (new_candidate_relay sys lib (relay_config l client (lib.relay_addr relay_conn))))
          (λ a. give_up l client (close_relay sys lib relay_conn a))
    on_err sys lib (add_candidate sys lib candidate relay_conn)
        (λ a. close_candidate sys lib candidate (close_relay sys lib relay_conn a))

  -- The goroutine of a URL
  unfoldable pub relay_url : Config lib → Uri → Action (Agent lib) (Unit {0})
  unfolding local_conn relay_on
  relay_url cfg url = do l ← local_conn cfg url url.proto url.scheme; relay_on url l

  -- gatherCandidatesRelay
  unfoldable pub gather_relay : Config lib → List Uri → Action (Agent lib) (Unit {0})
  unfolding use_of relay_url go
  gather_relay cfg [] = pure tt
  gather_relay cfg (url ∷ urls) = step (use_of url) (relay_url cfg url) (gather_relay cfg urls)

  -- setGatheringState
  unfoldable pub change_gathering_state : GatheringState → Agent lib → Agent lib
  change_gathering_state complete a = record a {
    gathering_state = complete;
    notified = if is_complete a.gathering_state then a.notified else a.notified ++ none ∷ [];
  }
  change_gathering_state s a = record a { gathering_state = s }

  unfoldable pub set_gathering_state : GatheringState → Action (Agent lib) (Unit {0})
  unfolding run change_gathering_state
  set_gathering_state s = run sys lib (change_gathering_state s)

  module _ (others : CandidateType → Action (Agent lib) (Unit {0})) where
    -- The loop of gatherCandidates over the types of candidates; the gathering of all but the relay
    -- candidates is a parameter.
    unfoldable pub gather_types : Config lib → List CandidateType → Action (Agent lib) (Unit {0})
    unfolding gather_relay
    gather_types cfg [] = pure tt
    gather_types cfg (relay ∷ types) = gather_relay cfg cfg.urls >> gather_types cfg types
    gather_types cfg (peer_reflexive ∷ types) = gather_types cfg types
    gather_types cfg (unspecified ∷ types) = gather_types cfg types
    gather_types cfg (t ∷ types) = others t >> gather_types cfg types

    -- gatherCandidates; an error ends it, and is logged
    unfoldable pub gather : Config lib → Action (Agent lib) (Unit {0})
    unfolding set_gathering_state gather_types
    gather cfg = do
      set_gathering_state gathering
      gather_types cfg cfg.candidate_types
      set_gathering_state complete

    unfoldable pub check_gather : Agent lib → Result (Unit {0})
    check_gather a =
        if not (is_new a.gathering_state)
        then err (reason "attempting to gather candidates during gathering state")
        else if a.has_candidate_hdlr
        then ok tt
        else err (reason "no OnCandidate provided")

    -- GatherCandidates: the goroutine that it starts is one more routine
    unfoldable pub gather_candidates : Action (Agent lib) (Unit {0})
    unfolding check_gather
    gather_candidates = do
      run sys lib (λ a. a)
      λ a. (check_gather a, a)
      modify (λ a. record a { routines = a.routines + 1 })
