-- ===== src/SignalClient/Overlay.antt =====
-- The signal client over the websocket library: connect's dial is that of the default dialer.
use ziti_livekit_example.Prelude.{refl, String, ◌<>◌, Bool, ◌≡◌, Option, none, some, List, [], ◌∷◌}
use ziti_livekit_example.Outcome.{Error, Result, ok}
use ziti_livekit_example.Openziti.Platform.{Platform, World}
use ziti_livekit_example.Openziti.Setup.{init_con}
use ziti_livekit_example.Websocket.Types.{Url, Header, Request, WsConn, Dialing, Wire}
use ziti_livekit_example.Websocket.Url.{host_port_no_port}
use ziti_livekit_example.Websocket.Dial.Headers.{set_header, get_header}
use ziti_livekit_example.Websocket.Dial.{dial_context, default_dialer}
use ziti_livekit_example.Websocket.Dial.Handshake.{spoken_on}
use ziti_livekit_example.Websocket.Dial.Overlay.{DialledIn, Written, dial_context-init_con}
use ziti_livekit_example.Websocket.Dial.Requests.{request_of-eq-ok}
use ziti_livekit_example.SignalClient.Types.{
  SignalResponse, MessageType, SignalRequest, ConnectParams, Validation, Websocket, Client,
}
use ziti_livekit_example.SignalClient.Connect.{connect}
use ziti_livekit_example.SignalClient.Connect.Lifecycle.{IsWell}
use ziti_livekit_example.SignalClient.Connect.Session.{connect-Connected}

-- What the client takes besides the dialer.
pub record Sockets (Net Conn : Type 0) : Type 0 where
  pub goos : String
  pub parse_error : String → Option Error
  pub new_request_error : String → Option Error
  pub validate : String → String → Net → Result Validation × Net
  pub read_message : Conn → Net → Result (MessageType × String) × Net
  pub write_message : Conn → String → Net → Result (Unit {0}) × Net
  pub close : Conn → Net → Net
  pub drained : Conn → Net → List SignalResponse
  pub proto_marshal : SignalRequest → Result String
  pub proto_unmarshal : String → Result SignalResponse
  pub json_unmarshal : String → Result SignalResponse
  pub is_eof : Error → Bool
  pub is_close_error : Error → Bool

-- newHeaderWithToken
unfoldable pub new_header_with_token : String → Header
unfolding set_header
new_header_with_token token = set_header "Authorization" (("Bearer " <> token) ∷ []) []

module _ {p : Platform} (wire : Wire p) (proxy : Request → Result (Option Url)) where
  -- The client's surroundings, in which websocket.DefaultDialer dials.
  abbrev pub zitified : Sockets (Dialing p) (WsConn p) → Websocket
  zitified so = record {
    Net = Dialing p;
    Conn = WsConn p;
    goos = so.goos;
    parse_error = so.parse_error;
    dial = λ url token.
        dial_context wire (default_dialer wire proxy) url (new_header_with_token token);
    new_request_error = so.new_request_error;
    validate = so.validate;
    read_message = so.read_message;
    write_message = so.write_message;
    close = so.close;
    drained = so.drained;
    proto_marshal = so.proto_marshal;
    proto_unmarshal = so.proto_unmarshal;
    json_unmarshal = so.json_unmarshal;
    is_eof = so.is_eof;
    is_close_error = so.is_close_error;
  }

  -- A client holds a websocket whose net connection was dialled in the collection of a world's context,
  -- at the host and port of the URL of a request with a token, which was written on that connection.
  pub record Overlaid (so : Sockets (Dialing p) (WsConn p)) (w : World p) (token : String)
      (c : Client (zitified so)) : Type 0 where
    pub ws : WsConn p
    pub held : c.conn ≡ some ws
    pub ctx : p.Context
    pub is_context : w.ziti_context ≡ some ctx
    pub req : Request
    pub authorised : get_header "Authorization" req.header ≡ some (("Bearer " <> token) ∷ [])
    pub conn : p.Conn
    pub dialled :
        DialledIn wire (p.add_context ctx p.new_collection) (host_port_no_port req.url).0 conn
    pub spoken : spoken_on wire (default_dialer wire proxy) req conn ≡ ws.net_conn
    pub written : Written wire req ws.net_conn

  -- After a successful InitCon, where the environment names no proxy, a signal client that connects holds a
  -- websocket whose net connection was dialled in the collection of contexts that holds the context InitCon
  -- made, at the host and port of the URL of a request that carries the client's token; that request was
  -- written on the websocket's connection.
  pub connect-init_con :
      (so : Sockets (Dialing p) (WsConn p)) (path : String) (w : World p) {u : Unit {0}}
      {w' : World p} (url_prefix token : String) (params : ConnectParams) (c : Client (zitified so))
      {o : Option SignalResponse} {c' : Client (zitified so)}
      → init_con p path w ≡ (ok u, w')
      → ((req : Request) → proxy req ≡ ok none)
      → c.net.world ≡ w'
      → IsWell (zitified so) c
      → connect (zitified so) url_prefix token params c ≡ (ok o, c')
      → Overlaid so w' token c'
  unfolding new_header_with_token set_header get_header
  connect-init_con so path w url_prefix token params c h direct world well k =
      let (some_url, made) = connect-Connected (zitified so) url_prefix token params c well k in
      let (ctx, req, conn, (url, key, net1, made_of), is_ctx, dialled, spoken, written) =
        dial_context-init_con wire path w proxy _ (new_header_with_token token) c.net h direct world
          made.dialled in
      let requested =
        request_of-eq-ok wire (default_dialer wire proxy) url (new_header_with_token token) key net1
          (tt, tt) (refl, tt) (refl, tt) made_of in
      let carried =
        requested.carries "Authorization" (("Bearer " <> token) ∷ []) (refl, refl, refl) refl
          refl in
      record {
        ws = made.new_conn;
        held = made.conn;
        ctx = ctx;
        is_context = is_ctx;
        req = req;
        authorised = carried;
        conn = conn;
        dialled = dialled;
        spoken = spoken;
        written = written;
      }
