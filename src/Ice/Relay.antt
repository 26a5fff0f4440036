-- ===== src/Ice/Relay.antt =====
-- gatherCandidatesRelay of lib/pion-ice/gather.go: the goroutine of a URL, which opens a connection to the
-- TURN server, a client on it and a relayed connection, and adds a candidate to the agent.
-- A result that is an error is one that the goroutine logs before it returns.
pub mod Holdings
pub mod Calls
pub mod Distinct
use ziti_livekit_example.Prelude.{
  ℕ, ◌+◌, ◌-◌, String, ◌==◌, Bool, true, false, ◌&&◌, ◌||◌, eqb, leb, if◌then◌else◌, Option, none,
  some, List, [], ◌∷◌, ◌++◌, ◌⊎◌, inl, inr,
}
use ziti_livekit_example.Text.{equal_fold}
use Prim.Native.String.{len, slice}
use ziti_livekit_example.Outcome.{
  Error, reason, Result, ok, err, panic, Action, pure, fail, lift, modify, ◌>>=◌, ◌>>◌,
}
use ziti_livekit_example.Openziti.Platform.{Platform}
use ziti_livekit_example.Stdnet.{ZitiPacketConn, System, Net, listen_packet, local_addr, close}
use ziti_livekit_example.Ice.Types.{
  Scheme, stun, stuns, turn, turns, unknown_scheme, Proto, udp, tcp, unknown_proto, Uri,
  NetworkType, udp4, udp6, tcp4, tcp6, LocConn, ziti, stun_conn, fake_conn, ClientConfig, Libs,
  CandidateRelayConfig, CandidateRelay, Tally, Agent, Config,
}

unfoldable pub result_of : {A : Type 0} → Error ⊎ A → Result A
result_of (inl e) = err e
result_of (inr a) = ok a

unfoldable pub has_network : String → String → Bool
has_network network prefix = leb 3 (len network) && equal_fold (slice network 0 3) prefix

-- NetworkType.IsIPv4 chooses among the two types of a transport; determineNetworkType
unfoldable pub determine_network_type : String → Bool → Error ⊎ NetworkType
unfolding has_network
determine_network_type network ipv4 =
    if has_network network "udp"
    then inr (if ipv4 then udp4 else udp6)
    else if has_network network "tcp"
    then inr (if ipv4 then tcp4 else tcp6)
    else inl (reason "unable to determine networkType")

unfoldable pub same_network_type : NetworkType → NetworkType → Bool
same_network_type udp4 udp4 = true
same_network_type udp6 udp6 = true
same_network_type tcp4 tcp4 = true
same_network_type tcp6 tcp6 = true
same_network_type _ _ = false

module _ {p : Platform} (sys : System p) (lib : Libs p) where
  abbrev pub candidate_of :
      CandidateRelayConfig lib → Result NetworkType → Result (CandidateRelay lib)
  candidate_of config (err e) = err e
  candidate_of config (panic t) = panic t
  candidate_of config (ok network_type) = ok (record {
    network_type = network_type;
    address = config.address;
    port = config.port;
    component = config.component;
    related_address = (config.rel_addr, config.rel_port);
    relay_protocol = config.relay_protocol;
    on_close = config.on_close;
    conn = none;
  })

  abbrev pub candidate_at : CandidateRelayConfig lib → Option lib.Ip → Result (CandidateRelay lib)
  candidate_at config none = err (reason "failed to parse address")
  candidate_at config (some ip) =
      candidate_of config (result_of (determine_network_type config.network (lib.is_ipv4 ip)))

  -- NewCandidateRelay
  unfoldable pub new_candidate_relay : CandidateRelayConfig lib → Result (CandidateRelay lib)
  unfolding determine_network_type result_of
  new_candidate_relay config = candidate_at config (lib.parse_ip config.address)

  -- (*candidateBase).Equal, of two relay candidates of which neither has a TCP type
  unfoldable pub equal : CandidateRelay lib → CandidateRelay lib → Bool
  unfolding same_network_type
  equal c other =
      same_network_type c.network_type other.network_type
      && c.address == other.address
      && eqb c.port other.port
      && c.related_address.0 == other.related_address.0
      && eqb c.related_address.1 other.related_address.1

  unfoldable pub tallied : (Tally → Tally) → Agent lib → Agent lib
  tallied f a = record a { tally = f a.tally }

  unfoldable pub on_net : (p.Net → p.Net) → Agent lib → Agent lib
  on_net f a = record a {
    net = record a.net { world = record a.net.world { net = f a.net.world.net } };
  }

  -- A call of a library that may fail.
  unfoldable pub on_lib : {A : Type 0} → (p.Net → (Error ⊎ A) × p.Net) → Action (Agent lib) A
  unfolding result_of on_net
  on_lib f a = (result_of (f a.net.world.net).0, on_net (λ n. (f n).1) a)

  -- A call that opens something if it succeeds.
  unfoldable pub opening :
      {A : Type 0} → (Tally → Tally) → Action (Agent lib) A → Action (Agent lib) A
  unfolding tallied
  opening up m = do x ← m; modify (tallied up); pure x

  -- `if err != nil { cleanup(); return }`
  abbrev pub cleaned : {A : Type 0} → Result A → (Agent lib → Agent lib) → Agent lib → Agent lib
  cleaned (ok x) c a = a
  cleaned (err e) c a = c a
  cleaned (panic t) c a = a

  unfoldable pub on_err :
      {A : Type 0} → Action (Agent lib) A → (Agent lib → Agent lib) → Action (Agent lib) A
  on_err m c a = let (r, a') = m a in (r, cleaned r c a')

  -- Close of a client, of a relayed connection and of a connection to a TURN server; their errors are
  -- only logged.
  unfoldable pub close_client : lib.Client → Agent lib → Agent lib
  unfolding tallied on_net
  close_client client a =
      tallied (λ t. record t { clients = t.clients - 1 }) (on_net (lib.close_client client) a)

  unfoldable pub close_relay : lib.RelayConn → Agent lib → Agent lib
  unfolding tallied on_net
  close_relay relay_conn a =
      tallied (λ t. record t { relays = t.relays - 1 }) (on_net (lib.close_relay relay_conn) a)

  unfoldable pub close_loc : LocConn p lib.Conn → Agent lib → Agent lib
  unfolding on_net
  close_loc (ziti z) a = record a { net = (close sys z a.net).1 }
  close_loc (stun_conn conn) a = on_net (lib.close_conn conn) a
  close_loc (fake_conn conn) a = on_net (lib.close_conn conn) a

  -- closeConnAndLog
  unfoldable pub close_conn_and_log : LocConn p lib.Conn → Agent lib → Agent lib
  unfolding close_loc tallied
  close_conn_and_log loc_conn a =
      tallied (λ t. record t { conns = t.conns - 1 }) (close_loc loc_conn a)

  -- (*CandidateRelay).close, of one that was never started: its OnClose
  unfoldable pub close_candidate : CandidateRelay lib → Agent lib → Agent lib
  unfolding close_client close_conn_and_log
  close_candidate c a = close_conn_and_log c.on_close.1 (close_client c.on_close.0 a)

  unfoldable pub has_equal : CandidateRelay lib → List (CandidateRelay lib) → Bool
  unfolding equal
  has_equal c [] = false
  has_equal c (other ∷ others) = equal other c || has_equal c others

  -- addCandidate's task. What it tells the checks of connectivity is left out.
  unfoldable pub append_candidate : CandidateRelay lib → lib.RelayConn → Agent lib → Agent lib
  unfolding has_equal close_candidate close_relay
  append_candidate c relay_conn a =
      let started = record c { conn = some relay_conn } in
      if has_equal c a.local_candidates
      then close_relay relay_conn (close_candidate c a)
      else record a {
        local_candidates = a.local_candidates ++ started ∷ [];
        notified = a.notified ++ some started ∷ [];
      }

  abbrev pub admit : Option Error → (Agent lib → Agent lib) → Action (Agent lib) (Unit {0})
  admit none task a = (ok tt, task a)
  admit (some e) task a = (err e, a)

  -- run, of a task: the loop's error, or the task
  unfoldable pub run : (Agent lib → Agent lib) → Action (Agent lib) (Unit {0})
  run task a = admit (lib.refused a.net.world.net) task a

  -- addCandidate
  unfoldable pub add_candidate : CandidateRelay lib → lib.RelayConn → Action (Agent lib) (Unit {0})
  unfolding append_candidate run
  add_candidate c relay_conn = run (append_candidate c relay_conn)
