-- ===== src/Examples/Websocket.antt =====
-- A websocket dialer over the connections of a world that InitCon has set up.
use ziti_livekit_example.Prelude.{
  ◌+◌, ◌≡◌, refl, ◌==◌, ◌<>◌, true, false, Option, none, [], ◌∷◌, if◌then◌else◌,
}
use ziti_livekit_example.Outcome.{Result, ok, ◌>>=◌}
use ziti_livekit_example.Outcome.Inversion.{ok-eq-ok}
use mathlib.Core.Path.{subst}
use ziti_livekit_example.Openziti.Platform.{World}
use ziti_livekit_example.Openziti.Disk.{read_file, file_error}
use ziti_livekit_example.Openziti.Setup.{
  init_con, setup_ziti_context, setup_ziti_transport, share_transport, adopt_context,
}
use ziti_livekit_example.Websocket.Types.{Url, Header, Request, WsConn, Dialing, Wire, Dialer}
use ziti_livekit_example.Websocket.Dial.{default_dialer, dial_context, request_of}
use ziti_livekit_example.Websocket.Dial.Requests.{Requested, request_of-eq-ok}
use ziti_livekit_example.Websocket.Dial.Levels.{Opens}
use ziti_livekit_example.Websocket.Dial.Sound.{IsSound, IsDialer}
use ziti_livekit_example.Websocket.Dial.Leaks.{dial_context-Opens}
use ziti_livekit_example.Examples.Surroundings.{plain, first_world}

-- The URL that the text is parsed to.
abbrev room_url : Url
room_url = record { scheme = "wss"; user = none; host = "livekit"; path = "/rtc" }

-- A server that accepts the handshake.
abbrev pub wire : Wire plain
wire = record {
  Jar = Unit {0};
  cookies = λ jar u n. [];
  set_cookies = λ jar u h n. n;
  add_cookie = λ c h. ("Cookie", c ∷ []) ∷ h;
  generate_challenge_key = λ n. (ok "key", n + 1);
  parse_url = λ t. ok room_url;
  set_deadline = λ conn n. (ok tt, n + 1);
  clear_deadline = λ conn n. (ok tt, n + 1);
  close_conn = λ conn n. n + 1;
  proxy_from_url = λ u dial. ok dial;
  tls_client = λ conn cfg. conn <> (" as " <> cfg.server_name);
  tls_handshake = λ conn n. (ok tt, n + 1);
  verify_hostname = λ conn host n. (ok tt, n + 1);
  write_request = λ req conn n. (ok tt, n + 1);
  read_response = λ req conn n. (ok (record { status = 101; header = [] }), n + 1);
  token_list_contains = λ h key value. true;
  parse_extensions = λ h. [];
  compute_accept_key = λ key. key <> " accepted";
  header_get = λ h key. if key == "Sec-Websocket-Accept" then "key accepted" else "";
}

abbrev pub direct : Request → Result (Option Url)
direct req = ok none

abbrev dialer : Dialer plain wire
dialer = default_dialer wire direct

-- The world that InitCon leaves, and the outcome of a dial in it.
abbrev pub ready : World plain
ready = (init_con plain "publisher" first_world).1

abbrev pub before : Dialing plain
before = record { world = ready; open_conns = 0; response = none }

abbrev authorised : Header
authorised = ("Authorization", "Bearer token" ∷ []) ∷ []

abbrev dialled : Dialing plain
dialled = (dial_context wire dialer "wss://livekit/rtc" authorised before).1

abbrev socket : WsConn plain
socket = record { net_conn = "livekit:443 as livekit"; subprotocol = ""; compressed = false }

pub initialised : init_con plain "publisher" first_world ≡ (ok tt, ready)
unfolding init_con ◌>>=◌ setup_ziti_context read_file file_error adopt_context share_transport
    setup_ziti_transport
initialised = refl

-- No dial function is given to the default dialer, and no proxy is there.
no_dialers : IsSound wire dialer
no_dialers = record {
  net_dial = λ f e. absurd cc;
  net_dial_context = λ f e. absurd cc;
  net_dial_tls_context = λ f e. absurd cc;
  proxied = λ url f g h e. subst (IsDialer wire) (ok-eq-ok e) h;
}

dial_context-Opens_example : Opens (dial_context wire dialer "wss://livekit/rtc" authorised)
dial_context-Opens_example =
    dial_context-Opens wire dialer "wss://livekit/rtc" authorised no_dialers

-- The request for the URL that the dialer was given.
abbrev request : Request
request = record {
  url = record room_url { scheme = "https" };
  header =
      ("Upgrade", "websocket" ∷ [])
      ∷ ("Connection", "Upgrade" ∷ [])
      ∷ ("Sec-WebSocket-Key", "key" ∷ [])
      ∷ ("Sec-WebSocket-Version", "13" ∷ [])
      ∷ authorised;
  host = "livekit";
}

requests : request_of wire dialer room_url authorised "key" 1 ≡ ok request
unfolding request_of
requests = refl

request_of-eq-ok_example : Requested wire dialer room_url authorised "key" request
request_of-eq-ok_example =
    request_of-eq-ok wire dialer room_url authorised "key" 1 (tt, tt) (refl, tt) (refl, tt) requests
