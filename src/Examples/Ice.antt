-- ===== src/Examples/Ice.antt =====
-- An agent whose TURN servers answer, and the gathering of its candidates.
use ziti_livekit_example.Prelude.{
  ℕ, ◌+◌, String, ◌<>◌, ◌≡◌, refl, true, false, inr, none, some, [], ◌∷◌, length, All,
}
use ziti_livekit_example.Text.{equal_fold}
use ziti_livekit_example.Outcome.{reason, ok, err, pure, ◌>>=◌}
use ziti_livekit_example.Openziti.Setup.{transport_dial, fallback_dial}
use ziti_livekit_example.Stdnet.{in_world, listen_packet}
use ziti_livekit_example.Ice.Types.{
  Uri, turn, turns, stun, udp, tcp, relay, new, udp4, ziti, Libs, CandidateRelay, Agent, Config,
}
use ziti_livekit_example.Ice.Relay.Distinct.{AreDistinct, add_candidate-AreDistinct}
use ziti_livekit_example.Ice.Relay.{add_candidate, opening, on_lib}
use ziti_livekit_example.Ice.Gather.{
  gather_relay, gather, gather_types, gather_candidates, set_gathering_state, relay_url, local_conn,
  relay_on, go, use_of,
}
use ziti_livekit_example.Ice.Gather.Dialling.{IsRoute}
use ziti_livekit_example.Ice.Gather.Balance.{Balanced, gather_relay-Balanced}
use ziti_livekit_example.Ice.Gather.Order.{each, until_unusable, turn_urls, gather_relay-each}
use ziti_livekit_example.Ice.Gather.Once.{Gathered, gather_once}
use ziti_livekit_example.Ice.Gather.Overlay.{gather-init_con}
use ziti_livekit_example.Examples.Surroundings.{plain, first_world}
use ziti_livekit_example.Examples.Websocket.{ready, initialised}
use ziti_livekit_example.Examples.Network.{system, net}

-- Relayed connections get the number of the call that made them as their port.
abbrev libs : Libs plain
libs = record {
  Conn = String;
  Client = String;
  RelayConn = ℕ;
  Ip = String;
  host_port = λ host port. host <> ":3478";
  parse_ip = λ address. some address;
  is_ipv4 = λ ip. true;
  resolve_tcp_addr = λ network address. inr address;
  resolve_udp_addr = λ network address. inr address;
  dial_tcp = λ network address n. (inr address, n + 1);
  dial_udp = λ network address n. (inr address, n + 1);
  dtls_client = λ conn name insecure n. (inr conn, n + 1);
  tls_client = λ conn name insecure. conn;
  handshake = λ conn n. (inr tt, n + 1);
  local_addr = λ conn. ("10.0.0.1", 5000);
  close_conn = λ conn n. n + 1;
  new_client = λ config n. (inr config.turn_server_addr, n + 1);
  listen = λ client n. (inr tt, n + 1);
  allocate = λ client n. (inr n, n + 1);
  close_client = λ client n. n + 1;
  relay_addr = λ n. ("192.0.2.1", n);
  close_relay = λ relay_conn n. n + 1;
  refused = λ n. none;
}

abbrev turn_url : Uri
turn_url = record {
  scheme = turn;
  host = "turn";
  port = 3478;
  username = "user";
  password = "secret";
  proto = udp;
}

abbrev tls_url : Uri
tls_url = record turn_url { scheme = turns; proto = tcp }

abbrev nameless_url : Uri
nameless_url = record turn_url { username = "" }

abbrev config : Config libs
config = record {
  proxy_dialer = none;
  insecure_skip_verify = false;
  urls = turn_url ∷ record turn_url { scheme = stun } ∷ tls_url ∷ nameless_url ∷ turn_url ∷ [];
  candidate_types = relay ∷ [];
}

abbrev agent : Agent libs
agent = record {
  net = net;
  gathering_state = new;
  has_candidate_hdlr = true;
  routines = 0;
  local_candidates = [];
  notified = [];
  tally = record { conns = 0; clients = 0; relays = 0 };
}

-- The first and the third URL give a candidate each.
two_candidates : length (gather_relay system libs config config.urls agent).1.local_candidates ≡ 2
unfolding gather_relay relay_url local_conn relay_on listen_packet in_world transport_dial
    fallback_dial ◌>>=◌ go use_of add_candidate opening on_lib equal_fold
two_candidates = refl

gather_relay-Balanced_example : Balanced agent (gather_relay system libs config config.urls agent).1
gather_relay-Balanced_example =
    gather_relay-Balanced system libs config config.urls agent
      ((λ h. cc), ((λ h. cc), ((λ h. cc), ((λ h. cc), ((λ h. cc), tt)))))

gather_relay-each_example :
    gather_relay system libs config config.urls
    ≡ each system libs config (until_unusable (turn_urls config.urls))
gather_relay-each_example = gather_relay-each system libs config config.urls

-- The agent in the world that InitCon leaves.
abbrev online : Agent libs
online = record agent { net = record net { world = ready } }

gather-init_con_example :
    (ctx : ℕ) × (ready.ziti_context ≡ some ctx)
    × All
        (λ (c : CandidateRelay libs). IsRoute system libs (ctx ∷ []) config.urls c.on_close.1)
        (gather system libs (λ t. pure tt) config online).1.local_candidates
gather-init_con_example =
    gather-init_con system libs (λ t. pure tt) "publisher" first_world config online initialised
      refl refl refl

-- The candidate of the first URL.
abbrev candidate : CandidateRelay libs
candidate = record {
  network_type = udp4;
  address = "192.0.2.1";
  port = 7;
  component = 1;
  related_address = ("0.0.0.0", 0);
  relay_protocol = "udp";
  on_close = (
    "turn:3478",
    ziti (record { ziti_con = "turn:3478"; network = "udp4"; address = "turn:3478" }),
  );
  conn = none;
}

-- The agent once it has that candidate, and is given it again.
abbrev holding : Agent libs
holding = record agent { local_candidates = candidate ∷ [] }

add_candidate-AreDistinct_example :
    AreDistinct system libs (add_candidate system libs candidate 7 holding).1.local_candidates
add_candidate-AreDistinct_example =
    add_candidate-AreDistinct system libs candidate 7 holding (tt, tt)

-- The agent once its gathering has ended.
abbrev gathered : Agent libs
gathered = (gather system libs (λ t. pure tt) config agent).1

gathers : gather system libs (λ t. pure tt) config agent ≡ (ok tt, gathered)
unfolding gather gather_types set_gathering_state gather_relay relay_url local_conn relay_on
    listen_packet in_world transport_dial fallback_dial ◌>>=◌ go use_of add_candidate opening on_lib
    equal_fold
gathers = refl

gather_once_example :
    Gathered system libs agent gathered
    × (gather_candidates system libs (λ t. pure tt) gathered
        ≡ (err (reason "attempting to gather candidates during gathering state"), gathered))
gather_once_example = gather_once system libs (λ t. pure tt) config agent refl gathers refl
