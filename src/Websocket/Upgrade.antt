-- ===== src/Websocket/Upgrade.antt =====
-- DialContext on a connection: TLS, the request, and the response that accepts it or does not.
use ziti_livekit_example.Prelude.{
  String, ◌==◌, ◌<>◌, Bool, true, false, ◌&&◌, Option, none, some, List, [], ◌∷◌, eqb,
  if◌then◌else◌,
}
use ziti_livekit_example.Outcome.{
  Error, reason, error_text, Result, ok, err, panic, Action, pure, lift, attempt, guard, modify,
  ◌>>=◌, ◌>>◌,
}
use ziti_livekit_example.Openziti.Platform.{Platform}
use ziti_livekit_example.Websocket.Types.{
  Url, Request, Response, TlsConfig, WsConn, Dialing, Wire, Dialer, on_net,
}

abbrev pub err_bad_handshake : Error
err_bad_handshake = reason "websocket: bad handshake"

abbrev pub err_invalid_compression : Error
err_invalid_compression = reason "websocket: invalid compression negotiation"

abbrev pub has_key : List (String × String) → String → Bool
has_key [] key = false
has_key ((k, v) ∷ rest) key = let found = has_key rest key in if k == key then true else found

abbrev pub extension_name : List (String × String) → String
extension_name [] = ""
extension_name ((k, v) ∷ rest) = let found = extension_name rest in if k == "" then v else found

-- The loop over the extensions that the server agrees to: whether messages are compressed.
unfoldable pub negotiate : List (List (String × String)) → Result Bool
negotiate [] = ok false
negotiate (ext ∷ exts) =
    let rest = negotiate exts in
    if extension_name ext == "permessage-deflate"
    then (if has_key ext "server_no_context_takeover" && has_key ext "client_no_context_takeover"
        then ok true
        else err err_invalid_compression)
    else rest

-- cloneTLSConfig, and the server's name where the configuration has none
unfoldable pub tls_config : Option TlsConfig → String → TlsConfig
tls_config none host = record { server_name = host; next_protos = []; insecure_skip_verify = false }
tls_config (some cfg) host =
    if cfg.server_name == "" then record cfg { server_name = host } else cfg

-- The error of a response that could not be read: the first protocol of the configuration that is not
-- HTTP/1.1 is blamed, whose name is taken to need no escapes.
unfoldable pub read_error : List String → Error → Error
read_error [] e = e
read_error (proto ∷ protos) e =
    let rest = read_error protos e in
    if proto == "http/1.1"
    then rest
    else reason (
        "websocket: protocol \""
        <> (proto
            <> ("\" was given but is not supported;sharing tls.Config with net/http Transport can cause this error: "
                <> error_text e)))

abbrev pub protos_of : Option TlsConfig → List String
protos_of none = []
protos_of (some cfg) = cfg.next_protos

module _ {p : Platform} (wire : Wire p) where
  unfoldable pub keep_cookies : Option wire.Jar → Url → Response → Dialing p → Dialing p
  keep_cookies none u resp s = s
  keep_cookies (some jar) u resp s = record s {
    world = record s.world { net = wire.set_cookies jar u resp.header s.world.net };
  }

  -- doHandshake
  unfoldable pub do_handshake : p.Conn → TlsConfig → Action (Dialing p) (Unit {0})
  unfolding on_net
  do_handshake conn cfg = do
    on_net (wire.tls_handshake conn)
    if cfg.insecure_skip_verify then pure tt else on_net (wire.verify_hostname conn cfg.server_name)

  -- What makes a response the acceptance of the handshake.
  unfoldable pub accepts : String → Response → Bool
  accepts challenge_key resp =
      eqb resp.status 101
      && wire.token_list_contains resp.header "Upgrade" "websocket"
      && wire.token_list_contains resp.header "Connection" "upgrade"
      && wire.header_get resp.header "Sec-Websocket-Accept" == wire.compute_accept_key challenge_key

  abbrev pub blamed : List String → Result Response → Result Response
  blamed protos (ok r) = ok r
  blamed protos (err e) = err (read_error protos e)
  blamed protos (panic t) = panic t

  -- DialContext from the response on: what it returns beside it.
  unfoldable pub accept_response : String → p.Conn → Response → Action (Dialing p) (WsConn p)
  unfolding on_net accepts negotiate
  accept_response challenge_key conn resp = do
    modify (λ s. record s { response = some resp })
    guard (accepts challenge_key resp) err_bad_handshake
    compressed ← lift (negotiate (wire.parse_extensions resp.header))
    on_net (wire.clear_deadline conn)
    pure (record {
      net_conn = conn;
      subprotocol = wire.header_get resp.header "Sec-Websocket-Protocol";
      compressed = compressed;
    })

  -- DialContext once there is a connection, of TLS if it is asked for.
  unfoldable pub upgrade : Dialer p wire → Request → String → p.Conn → Action (Dialing p) (WsConn p)
  unfolding on_net read_error keep_cookies accept_response
  upgrade d req challenge_key conn = do
    on_net (wire.write_request req conn)
    read ← attempt (on_net (wire.read_response req conn))
    resp ← lift (blamed (protos_of d.tls_client_config) read)
    modify (keep_cookies d.jar req.url resp)
    accept_response challenge_key conn resp
