-- ===== src/Websocket/Dial.antt =====
-- Dialer.DialContext, for the background context that Dial gives it, and DefaultDialer.
pub mod Callers
pub mod Carried
pub mod Headers
pub mod Handshake
pub mod Leaks
pub mod Levels
pub mod Overlay
pub mod Requests
pub mod Sound
pub mod Upgrades
use ziti_livekit_example.Prelude.{
  ℕ, ◌-◌, String, ◌==◌, ◌<>◌, Bool, true, false, ◌&&◌, ◌||◌, not, Option, none, some, List, [], ◌∷◌,
  eqb, if◌then◌else◌,
}
use ziti_livekit_example.Outcome.{
  Error, reason, error_text, Result, ok, err, panic, Action, pure, fail, lift, attempt, guard,
  modify, ◌>>=◌, ◌>>◌,
}
use ziti_livekit_example.Openziti.Platform.{Platform, World}
use ziti_livekit_example.Openziti.Setup.{transport_dial}
use ziti_livekit_example.Websocket.Types.{
  Url, Header, Request, Response, TlsConfig, WsConn, Dialing, NetDialer, Wire, Dialer, on_net,
  in_world,
}
use ziti_livekit_example.Websocket.Url.{host_port_no_port}
use ziti_livekit_example.Websocket.Dial.Headers.{
  upgrade_headers, put_headers, put_on, offer_compression,
}
use ziti_livekit_example.Websocket.Dialers.{closing, choose_dialer, limit_dialer, proxy_dialer}
use ziti_livekit_example.Websocket.Upgrade.{tls_config, do_handshake, upgrade}

abbrev pub err_malformed_url : Error
err_malformed_url = reason "malformed ws or wss URL"

-- The URL that the request is made for, of a parsed one.
unfoldable pub http_url : Url → Result Url
http_url u =
    if u.scheme == "ws"
    then ok (record u { scheme = "http" })
    else if u.scheme == "wss"
    then ok (record u { scheme = "https" })
    else err err_malformed_url

-- `if u.User != nil`: user name and password are not allowed
unfoldable pub without_user : Option String → Url → Result Url
without_user none u = ok u
without_user (some t) u = err err_malformed_url

module _ {p : Platform} (wire : Wire p) where
  -- The cookies of the dialer's jar.
  abbrev pub add_cookies : List String → Header → Header
  add_cookies [] header = header
  add_cookies (c ∷ cs) header = add_cookies cs (wire.add_cookie c header)

  unfoldable pub jar_header : Option wire.Jar → Url → p.Net → Header
  jar_header none u net' = []
  jar_header (some jar) u net' = add_cookies (wire.cookies jar u net') []

  -- The request of a URL that is one of HTTP by now.
  unfoldable pub request_at : Dialer p wire → Header → String → p.Net → Url → Result Request
  unfolding jar_header upgrade_headers put_headers offer_compression put_on
  request_at d header challenge_key net' u =
      put_on (λ req. ok (offer_compression d.enable_compression req))
        (put_headers d.subprotocols header (record {
          url = u;
          header = upgrade_headers challenge_key d.subprotocols (jar_header d.jar u net');
          host = u.host;
        }))

  -- The request of a parsed URL, or the first refusal.
  unfoldable pub request_of : Dialer p wire → Url → Header → String → p.Net → Result Request
  unfolding http_url without_user request_at put_on
  request_of d u header challenge_key net' =
      put_on (request_at d header challenge_key net') (put_on (without_user u.user) (http_url u))

  abbrev pub is_none_dialer : Option (NetDialer p) → Bool
  is_none_dialer none = true
  is_none_dialer (some f) = false

  -- The rest of DialContext from the dialled connection on, with what is deferred.
  unfoldable pub secure_and_upgrade :
      Dialer p wire → Request → String → p.Conn → Action (Dialing p) (WsConn p)
  unfolding closing tls_config do_handshake upgrade host_port_no_port
  secure_and_upgrade d req challenge_key conn =
      if req.url.scheme == "https" && is_none_dialer d.net_dial_tls_context
      then (let cfg = tls_config d.tls_client_config (host_port_no_port req.url).1 in
          let tls_conn = wire.tls_client conn cfg in
          closing wire tls_conn
            (do_handshake wire tls_conn cfg >> upgrade wire d req challenge_key tls_conn))
      else closing wire conn (upgrade wire d req challenge_key conn)

  -- DialContext
  unfoldable pub dial_context : Dialer p wire → String → Header → Action (Dialing p) (WsConn p)
  unfolding on_net request_of choose_dialer limit_dialer proxy_dialer host_port_no_port
      secure_and_upgrade
  dial_context d url_str header = do
    challenge_key ← on_net wire.generate_challenge_key
    u ← lift (wire.parse_url url_str)
    req ← λ s. (request_of d u header challenge_key s.world.net, s)
    chosen ← choose_dialer wire d req.url
    dial ← proxy_dialer wire d.proxy req (limit_dialer wire d.handshake_timeout chosen)
    conn ← dial "tcp" (host_port_no_port req.url).0
    secure_and_upgrade d req challenge_key conn

  -- DefaultDialer, for what ProxyFromEnvironment gives; its timeout is in seconds
  abbrev pub default_dialer : (Request → Result (Option Url)) → Dialer p wire
  default_dialer proxy_from_environment = record {
    net_dial = none;
    net_dial_context = none;
    net_dial_tls_context = none;
    proxy = some proxy_from_environment;
    tls_client_config = none;
    handshake_timeout = 45;
    subprotocols = [];
    enable_compression = false;
    jar = none;
  }
