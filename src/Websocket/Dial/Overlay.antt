-- ===== src/Websocket/Dial/Overlay.antt =====
-- Where the default dialer's connections go once lib/openziti has been set up, and before.
use ziti_livekit_example.Prelude.{
  ℕ, String, ◌==◌, Bool, true, false, arith, ◌≡◌, refl, ap, sym, ◌∙◌, Option, none, some,
}
use ziti_livekit_example.Outcome.{Result, ok, panic, Action, pure, lift, continue, ◌>>=◌, ◌>>◌}
use ziti_livekit_example.Outcome.Inversion.{bind-eq-ok, pure-eq-ok, ok-eq-ok}
use ziti_livekit_example.Openziti.Platform.{Platform, World}
use ziti_livekit_example.Openziti.Setup.{transport_dial, fallback_dial, init_con}
use ziti_livekit_example.Openziti.Setup.Wiring.{init_con-IsWired}
use ziti_livekit_example.Websocket.Types.{
  Dialer, Url, Header, Request, WsConn, Dialing, NetDialer, Wire, on_net, in_world,
}
use ziti_livekit_example.Websocket.Url.{host_port_no_port}
use ziti_livekit_example.Websocket.Dialers.{
  dialer_of_transport, ziti_dialer, choose_plain, choose_tls, choose_dialer, deadline_dialer,
  limit_dialer, through, proxy_dialer,
}
use ziti_livekit_example.Websocket.Dial.{request_of, default_dialer, dial_context}
use ziti_livekit_example.Websocket.Dial.Handshake.{closing-eq-ok, dial_context-eq-ok, spoken_on}

module _ {p : Platform} (wire : Wire p) where
  -- The dial function of the ziti transport.
  abbrev pub over_ziti : NetDialer p
  over_ziti network address = in_world (transport_dial p network address)

  choose_tls-none :
      (b : Bool) (m : Action (Dialing p) (NetDialer p)) (s : Dialing p)
      → choose_tls wire b none m s ≡ m s
  unfolding choose_tls
  choose_tls-none true m s = refl
  choose_tls-none false m s = refl

  choose_dialer-default :
      (proxy : Request → Result (Option Url)) (u : Url) (s : Dialing p)
      → choose_dialer wire (default_dialer wire proxy) u s ≡ ziti_dialer wire s
  unfolding choose_dialer choose_plain
  choose_dialer-default proxy u s = choose_tls-none (u.scheme == "https") (ziti_dialer wire) s

  ziti_dialer-eq-ok :
      (s : Dialing p) (number : ℕ) {f : NetDialer p} {t : Dialing p}
      → s.world.websocket ≡ some number
      → ziti_dialer wire s ≡ (ok f, t)
      → (over_ziti ≡ f) × (s ≡ t)
  unfolding ziti_dialer dialer_of_transport
  ziti_dialer-eq-ok s number {f} e h =
      (ok-eq-ok (sym (ap (dialer_of_transport wire) e) ∙ ap (λ x. x.0) h), ap (λ x. x.1) h)

  proxy_dialer-direct :
      (proxy : Request → Result (Option Url)) (req : Request) (f : NetDialer p) (s : Dialing p)
      {g : NetDialer p} {t : Dialing p}
      → proxy req ≡ ok none
      → proxy_dialer wire (some proxy) req f s ≡ (ok g, t)
      → (f ≡ g) × (s ≡ t)
  unfolding proxy_dialer ◌>>=◌
  proxy_dialer-direct proxy req f s {g} {t} e h =
      let both : ◌≡◌ {A = Result (NetDialer p) × Dialing p} (ok f, s) (ok g, t) =
        sym (ap (λ r. continue r (λ url. lift (through wire url f)) s) e) ∙ h in
      (ok-eq-ok (ap (λ x. x.0) both), ap (λ x. x.1) both)

  abbrev limited : p.Conn → Action (Dialing p) p.Conn
  limited conn = on_net (wire.set_deadline conn) >> pure conn

  set_deadline-eq-ok :
      (conn : p.Conn) (s : Dialing p) {c : p.Conn} {t : Dialing p}
      → limited conn s ≡ (ok c, t)
      → conn ≡ c
  set_deadline-eq-ok conn s {c} {t} h =
      let (x, v, h1, k1) = bind-eq-ok (on_net (wire.set_deadline conn)) (λ u. pure conn) s h in
      let same : (conn ≡ c) × (v ≡ t) = pure-eq-ok k1 in same.0

  deadline_dialer-eq-ok :
      (f : NetDialer p) (network address : String) (s : Dialing p) {conn : p.Conn} {t : Dialing p}
      → deadline_dialer wire f network address s ≡ (ok conn, t)
      → (u : Dialing p) × (f network address s ≡ (ok conn, u))
  unfolding deadline_dialer
  deadline_dialer-eq-ok f network address s h =
      let (c, u, h1, k1) = bind-eq-ok (f network address) _ s h in
      (u, h1 ∙ ap (λ y. (ok y, u)) (set_deadline-eq-ok c u (closing-eq-ok wire c (limited c) u k1)))

  in_world-eq-ok :
      (m : Action (World p) p.Conn) (s : Dialing p) {conn : p.Conn} {t : Dialing p}
      → in_world m s ≡ (ok conn, t)
      → m s.world ≡ (ok conn, t.world)
  unfolding in_world
  in_world-eq-ok m s h = λ i. ((h i).0, (h i).1.world)

  limit_dialer-eq-ok :
      (f : NetDialer p) (network address : String) (s : Dialing p) {conn : p.Conn} {t : Dialing p}
      → limit_dialer wire 45 f network address s ≡ (ok conn, t)
      → (u : Dialing p) × (f network address s ≡ (ok conn, u))
  unfolding limit_dialer
  limit_dialer-eq-ok f network address s h = deadline_dialer-eq-ok f network address s h

  -- A connection that was dialled in the ziti contexts of a collection.
  abbrev pub DialledIn : p.CtxCollection → String → p.Conn → Type 0
  DialledIn cs address conn =
      (net1 : p.Net) × (net2 : p.Net) × (p.collection_dial cs (fallback_dial p) "tcp" address net1
        ≡ (ok conn, net2))

  transport_dial-eq-ok :
      (address : String) (w : World p) {cs : p.CtxCollection} {conn : p.Conn} {w' : World p}
      → w.ziti_contexts ≡ some cs
      → transport_dial p "tcp" address w ≡ (ok conn, w')
      → DialledIn cs address conn
  unfolding transport_dial
  transport_dial-eq-ok address w {cs} {conn} {w'} e h = (w.net, w'.net, ground arith)

  -- A request was written on a connection.
  abbrev pub Written : Request → p.Conn → Type 0
  Written req conn =
      (before : p.Net) × (after : p.Net) × (wire.write_request req conn before ≡ (ok tt, after))

  -- A request that a dialer makes of some URL and key, and of a caller's headers.
  abbrev pub MadeOf : Dialer p wire → Header → Request → Type 0
  MadeOf d header req =
      (u : Url) × (key : String) × (net1 : p.Net) × (request_of wire d u header key net1 ≡ ok req)

  -- After a successful InitCon, the default dialer, where the environment names no proxy, makes its
  -- websocket connections only in the collection of contexts that holds the context InitCon made, at the
  -- host and port of the URL.
  pub dial_context-init_con :
      (path : String) (w : World p) {u : Unit {0}} {w' : World p}
      (proxy : Request → Result (Option Url)) (url_str : String) (header : Header) (s : Dialing p)
      {ws : WsConn p} {s' : Dialing p}
      → init_con p path w ≡ (ok u, w')
      → ((req : Request) → proxy req ≡ ok none)
      → s.world ≡ w'
      → dial_context wire (default_dialer wire proxy) url_str header s ≡ (ok ws, s')
      → (ctx : p.Context) × (req : Request) × (conn : p.Conn) × MadeOf
          (default_dialer wire proxy)
          header
          req
        × (w'.ziti_context ≡ some ctx)
        × DialledIn (p.add_context ctx p.new_collection) (host_port_no_port req.url).0 conn
        × (spoken_on wire (default_dialer wire proxy) req conn ≡ ws.net_conn)
        × Written req ws.net_conn
  dial_context-init_con path w {u} {w'} proxy url_str header s {ws} {s'} h direct world k =
      let wired = init_con-IsWired p path w h in
      let d = dial_context-eq-ok wire (default_dialer wire proxy) url_str header s k in
      let (over, left) =
        ziti_dialer-eq-ok d.made wired.number
          (ap (λ (x : World p). x.websocket) d.same_world
            ∙ ap (λ (x : World p). x.websocket) world
            ∙ wired.websocket)
          (sym (choose_dialer-default proxy d.req.url d.made) ∙ d.chose) in
      let (wrapped, left') = proxy_dialer-direct proxy d.req _ d.s1 (direct d.req) d.wrapped in
      let address = (host_port_no_port d.req.url).0 in
      let dialled : limit_dialer wire 45 over_ziti "tcp" address d.s2 ≡ (ok d.conn, d.s3) =
        ap (λ f. limit_dialer wire 45 f "tcp" address d.s2) over
        ∙ ap (λ f. f "tcp" address d.s2) wrapped
        ∙ d.dialled in
      let (v, reached) = limit_dialer-eq-ok over_ziti "tcp" address d.s2 dialled in
      let same : d.s2.world.ziti_contexts ≡ w'.ziti_contexts =
        ap (λ (x : Dialing p). x.world.ziti_contexts) (sym (left ∙ left'))
        ∙ ap (λ (x : World p). x.ziti_contexts) d.same_world
        ∙ ap (λ (x : World p). x.ziti_contexts) world in
      (
        wired.context,
        d.req,
        d.conn,
        (d.url, d.key, d.net1, d.requested),
        wired.is_context,
        transport_dial-eq-ok address d.s2.world (same ∙ wired.collection)
            (in_world-eq-ok (transport_dial p "tcp" address) d.s2 reached),
        d.agreed.accepted.net_conn,
        (
          d.agreed.before,
          d.agreed.sent,
          ap (λ x. wire.write_request d.req x d.agreed.before) (sym d.agreed.accepted.net_conn)
              ∙ d.agreed.written,
        ),
      )

  -- Before a successful InitCon the websocket library has no transport: the default dialer panics
  -- on every URL and headers that it does not refuse first.
  pub dial_context_panics :
      (proxy : Request → Result (Option Url)) (url_str : String) (header : Header) (s : Dialing p)
      {key : String} {net1 : p.Net} {u : Url} {req : Request}
      → s.world.websocket ≡ none
      → wire.generate_challenge_key s.world.net ≡ (ok key, net1)
      → wire.parse_url url_str ≡ ok u
      → request_of wire (default_dialer wire proxy) u header key net1 ≡ ok req
      → (dial_context wire (default_dialer wire proxy) url_str header s).0
        ≡ panic "invalid memory address or nil pointer dereference"
  unfolding dial_context ziti_dialer dialer_of_transport on_net ◌>>=◌
  dial_context_panics proxy url_str header s h k l m = simp (k, l, m, choose_dialer-default, h)
