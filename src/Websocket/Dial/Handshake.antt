-- ===== src/Websocket/Dial/Handshake.antt =====
-- What a dial that succeeds has agreed with the server, and over which connection.
use ziti_livekit_example.Prelude.{
  String, ◌==◌, ◌≡◌, ap, sym, ◌∙◌, Bool, true, false, ◌&&◌, List, some, arith, if◌then◌else◌,
}
use ziti_livekit_example.Outcome.{Result, ok, err, panic, Action, attempt, ◌>>◌}
use ziti_livekit_example.Outcome.Inversion.{
  bind-eq-ok, lift_bind-eq-ok, guard_bind-eq-ok, pure-eq-ok, modify-eq-ok,
}
use ziti_livekit_example.Openziti.Platform.{Platform}
use ziti_livekit_example.Websocket.Types.{
  Url, Header, Request, Response, TlsConfig, WsConn, Dialing, NetDialer, Wire, Dialer, on_net,
}
use ziti_livekit_example.Websocket.Url.{host_port_no_port}
use ziti_livekit_example.Websocket.Dialers.{
  closing, closed_unless_ok, choose_dialer, limit_dialer, proxy_dialer,
}
use ziti_livekit_example.Websocket.Upgrade.{
  negotiate, accepts, accept_response, blamed, protos_of, do_handshake, tls_config, upgrade,
}
use ziti_livekit_example.Websocket.Dial.{
  request_of, is_none_dialer, secure_and_upgrade, dial_context,
}

module _ {p : Platform} (wire : Wire p) where
  response-on_net :
      {A : Type 0} (f : p.Net → Result A × p.Net) (s : Dialing p) {a : A} {s' : Dialing p}
      → on_net f s ≡ (ok a, s')
      → s'.response ≡ s.response
  unfolding on_net
  response-on_net f s h = ap (λ x. x.1.response) (sym h)

  world_on_net :
      {A : Type 0} (f : p.Net → Result A × p.Net) (s : Dialing p) {a : A} {s' : Dialing p}
      → on_net f s ≡ (ok a, s')
      → (f s.world.net ≡ (ok a, s'.world.net)) × (s'.world ≡ record s.world { net = s'.world.net })
  unfolding on_net
  world_on_net f s h = ground arith

  -- What a response that accepted the handshake, and is the one that is returned, says of
  -- compression and of the subprotocol is the connection's.
  pub record Accepted (key : String) (conn : p.Conn) (resp : Response) (ws : WsConn p)
      (s' : Dialing p) : Type 0 where
    pub returned : s'.response ≡ some resp
    pub accepted : accepts wire key resp ≡ true
    pub compressed : negotiate (wire.parse_extensions resp.header) ≡ ok ws.compressed
    pub subprotocol : wire.header_get resp.header "Sec-Websocket-Protocol" ≡ ws.subprotocol
    pub net_conn : conn ≡ ws.net_conn

  accept_response-eq-ok :
      (key : String) (conn : p.Conn) (resp : Response) (s : Dialing p) {ws : WsConn p}
      {s' : Dialing p}
      → accept_response wire key conn resp s ≡ (ok ws, s')
      → Accepted key conn resp ws s'
  unfolding accept_response
  accept_response-eq-ok key conn resp s {ws} {s'} h =
      let (u1, a, h1, k1) = bind-eq-ok _ _ s h in
      let (tested, k2) = guard_bind-eq-ok _ _ _ a k1 in
      let (compressed, agreed, k3) = lift_bind-eq-ok _ _ a k2 in
      let (u4, b, h4, k4) = bind-eq-ok (on_net (wire.clear_deadline conn)) _ a k3 in
      let ended : (_ ≡ ws) × (b ≡ s') = pure-eq-ok k4 in
      record {
        returned =
            ap (λ (x : Dialing p). x.response) (sym ended.1)
            ∙ response-on_net (wire.clear_deadline conn) a h4
            ∙ ap (λ (x : Dialing p). x.response) (sym (modify-eq-ok _ h1));
        accepted = tested;
        compressed = agreed ∙ ap ok (ap (λ (w : WsConn p). w.compressed) ended.0);
        subprotocol = ap (λ (w : WsConn p). w.subprotocol) ended.0;
        net_conn = ap (λ (w : WsConn p). w.net_conn) ended.0;
      }

  -- The request was written on a connection, and the response to it was then read there; it
  -- accepted the handshake.
  pub record Agreed (req : Request) (key : String) (conn : p.Conn) (ws : WsConn p) (s' : Dialing p)
      : Type 0 where
    pub before : p.Net
    pub sent : p.Net
    pub answered : p.Net
    pub written : wire.write_request req conn before ≡ (ok tt, sent)
    pub resp : Response
    pub read : wire.read_response req conn sent ≡ (ok resp, answered)
    pub accepted : Accepted key conn resp ws s'

  blamed-eq-ok :
      (protos : List String) (r : Result Response) {resp : Response}
      → blamed wire protos r ≡ ok resp
      → r ≡ ok resp
  blamed-eq-ok protos (ok r) h = h
  blamed-eq-ok protos (err e) h = cc
  blamed-eq-ok protos (panic t) h = cc

  attempt-on_net :
      {A : Type 0} (f : p.Net → Result A × p.Net) (s : Dialing p) {r : Result A} {s' : Dialing p}
      → attempt (on_net f) s ≡ (ok r, s')
      → f s.world.net ≡ (r, s'.world.net)
  unfolding attempt on_net
  attempt-on_net f s h = ground arith

  upgrade-eq-ok :
      (d : Dialer p wire) (req : Request) (key : String) (conn : p.Conn) (s : Dialing p)
      {ws : WsConn p} {s' : Dialing p}
      → upgrade wire d req key conn s ≡ (ok ws, s')
      → Agreed req key conn ws s'
  unfolding upgrade
  upgrade-eq-ok d req key conn s h =
      let (u1, a, h1, k1) = bind-eq-ok (on_net (wire.write_request req conn)) _ s h in
      let (read, b, h2, k2) = bind-eq-ok (attempt (on_net (wire.read_response req conn))) _ a k1 in
      let (resp, h3, k3) = lift_bind-eq-ok _ _ b k2 in
      let (u4, c, h4, k4) = bind-eq-ok _ _ b k3 in
      record {
        before = s.world.net;
        sent = a.world.net;
        answered = b.world.net;
        written = (world_on_net (wire.write_request req conn) s h1).0;
        resp = resp;
        read =
            attempt-on_net (wire.read_response req conn) a h2
            ∙ ap (λ r. (r, b.world.net)) (blamed-eq-ok (protos_of d.tls_client_config) read h3);
        accepted = accept_response-eq-ok key conn resp c k4;
      }

  closed-eq-ok :
      {A : Type 0} (r : Result A) (conn : p.Conn) (s : Dialing p) {a : A} {s' : Dialing p}
      → r ≡ ok a
      → closed_unless_ok wire r conn s ≡ s'
      → s ≡ s'
  closed-eq-ok (ok a) conn s e h = h
  closed-eq-ok (err x) conn s e h = cc
  closed-eq-ok (panic t) conn s e h = cc

  pub closing-eq-ok :
      {A : Type 0} (conn : p.Conn) (m : Action (Dialing p) A) (s : Dialing p) {a : A}
      {s' : Dialing p}
      → closing wire conn m s ≡ (ok a, s')
      → m s ≡ (ok a, s')
  unfolding closing
  closing-eq-ok conn m s h =
      let given = ap (λ x. x.0) h in
      let left = closed-eq-ok (m s).0 conn (m s).1 given (ap (λ x. x.1) h) in λ i. (given i, left i)

  -- The connection that the websocket is spoken on, of one that was dialled for a request.
  abbrev pub spoken_on : Dialer p wire → Request → p.Conn → p.Conn
  spoken_on d req conn =
      if req.url.scheme == "https" && is_none_dialer wire d.net_dial_tls_context
      then wire.tls_client conn (tls_config d.tls_client_config (host_port_no_port req.url).1)
      else conn

  secured-eq-ok :
      (d : Dialer p wire) (req : Request) (key : String) (conn : p.Conn) (cfg : TlsConfig)
      (b : Bool) (s : Dialing p) {ws : WsConn p} {s' : Dialing p}
      → (if b
            then closing wire (wire.tls_client conn cfg) (
                do_handshake wire (wire.tls_client conn cfg) cfg
                >> upgrade wire d req key (wire.tls_client conn cfg))
            else closing wire conn (upgrade wire d req key conn))
          s
        ≡ (ok ws, s')
      → Agreed req key (if b then wire.tls_client conn cfg else conn) ws s'
  secured-eq-ok d req key conn cfg true s h =
      let (u, a, shaken, rest) =
        bind-eq-ok (do_handshake wire (wire.tls_client conn cfg) cfg) _ s (closing-eq-ok _ _ s h) in
      upgrade-eq-ok d req key (wire.tls_client conn cfg) a rest
  secured-eq-ok d req key conn cfg false s h =
      upgrade-eq-ok d req key conn s (closing-eq-ok conn _ s h)

  secure_and_upgrade-eq-ok :
      (d : Dialer p wire) (req : Request) (key : String) (conn : p.Conn) (s : Dialing p)
      {ws : WsConn p} {s' : Dialing p}
      → secure_and_upgrade wire d req key conn s ≡ (ok ws, s')
      → Agreed req key (spoken_on d req conn) ws s'
  unfolding secure_and_upgrade
  secure_and_upgrade-eq-ok d req key conn s h =
      secured-eq-ok d req key conn (tls_config d.tls_client_config (host_port_no_port req.url).1)
        (req.url.scheme == "https" && is_none_dialer wire d.net_dial_tls_context) s h

  -- What a successful dial has done: made the request of the URL, with a key of its own, dialled the
  -- host, and had the response to the request accepted.
  pub record Shaken (d : Dialer p wire) (url_str : String) (header : Header) (s : Dialing p)
      (ws : WsConn p) (s' : Dialing p) : Type 0 where
    pub key : String
    pub net1 : p.Net
    pub keyed : wire.generate_challenge_key s.world.net ≡ (ok key, net1)
    pub url : Url
    pub parsed : wire.parse_url url_str ≡ ok url
    pub req : Request
    pub requested : request_of wire d url header key net1 ≡ ok req
    pub chosen : NetDialer p
    pub s1 : Dialing p
    pub made : Dialing p
    pub chose : choose_dialer wire d req.url made ≡ (ok chosen, s1)
    pub same_world : made.world ≡ record s.world { net = net1 }
    pub dial : NetDialer p
    pub s2 : Dialing p
    pub wrapped :
        proxy_dialer wire d.proxy req (limit_dialer wire d.handshake_timeout chosen) s1
        ≡ (ok dial, s2)
    pub conn : p.Conn
    pub s3 : Dialing p
    pub dialled : dial "tcp" (host_port_no_port req.url).0 s2 ≡ (ok conn, s3)
    pub agreed : Agreed req key (spoken_on d req conn) ws s'

  still-eq-ok :
      {A : Type 0} (r : Result A) (s : Dialing p) {a : A} {s' : Dialing p}
      → ◌≡◌ {A = Result A × Dialing p} (r, s) (ok a, s')
      → (r ≡ ok a) × (s ≡ s')
  still-eq-ok r s h = (ap (λ x. x.0) h, ap (λ x. x.1) h)

  pub dial_context-eq-ok :
      (d : Dialer p wire) (url_str : String) (header : Header) (s : Dialing p) {ws : WsConn p}
      {s' : Dialing p}
      → dial_context wire d url_str header s ≡ (ok ws, s')
      → Shaken d url_str header s ws s'
  unfolding dial_context
  dial_context-eq-ok d url_str header s h =
      let (key, a, h1, k1) = bind-eq-ok (on_net wire.generate_challenge_key) _ s h in
      let (u, parsed, k2) = lift_bind-eq-ok (wire.parse_url url_str) _ a k1 in
      let (req, b, h3, k3) =
        bind-eq-ok (λ s. (request_of wire d u header key s.world.net, s)) _ a k2 in
      let (requested, same) = still-eq-ok (request_of wire d u header key a.world.net) a h3 in
      let (chosen, c, h4, k4) = bind-eq-ok (choose_dialer wire d req.url) _ b k3 in
      let (dial, e, h5, k5) =
        bind-eq-ok (proxy_dialer wire d.proxy req (limit_dialer wire d.handshake_timeout chosen)) _
          c k4 in
      let (conn, f, h6, k6) = bind-eq-ok (dial "tcp" (host_port_no_port req.url).0) _ e k5 in
      let (keyed, world) = world_on_net wire.generate_challenge_key s h1 in
      record {
        key = key;
        net1 = a.world.net;
        keyed = keyed;
        url = u;
        parsed = parsed;
        req = req;
        requested = requested;
        chosen = chosen;
        s1 = c;
        made = b;
        chose = h4;
        same_world = ap (λ (x : Dialing p). x.world) (sym same) ∙ world;
        dial = dial;
        s2 = e;
        wrapped = h5;
        conn = conn;
        s3 = f;
        dialled = h6;
        agreed = secure_and_upgrade-eq-ok d req key conn f k6;
      }
