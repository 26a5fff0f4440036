-- ===== src/Websocket/Dialers.antt =====
-- The dial functions of DialContext: the ones of the dialer, the one of the ziti transport, and what is
-- wrapped around them.
use ziti_livekit_example.Prelude.{
  ℕ, ◌-◌, ◌==◌, Bool, true, false, Option, none, some, eqb, if◌then◌else◌,
}
use ziti_livekit_example.Outcome.{Result, ok, err, panic, Action, pure, lift, ◌>>=◌, ◌>>◌}
use ziti_livekit_example.Openziti.Platform.{Platform}
use ziti_livekit_example.Openziti.Setup.{transport_dial}
use ziti_livekit_example.Websocket.Types.{
  Url, Request, Dialing, NetDialer, Wire, Dialer, on_net, in_world,
}

module _ {p : Platform} (wire : Wire p) where
  -- netConn.Close()
  unfoldable pub close_net_conn : p.Conn → Dialing p → Dialing p
  close_net_conn conn s = record s {
    world = record s.world { net = wire.close_conn conn s.world.net };
    open_conns = s.open_conns - 1;
  }

  abbrev pub closed_unless_ok : {A : Type 0} → Result A → p.Conn → Dialing p → Dialing p
  closed_unless_ok (ok a) conn s = s
  closed_unless_ok (err e) conn s = close_net_conn conn s
  closed_unless_ok (panic t) conn s = close_net_conn conn s

  -- The deferred function of DialContext: the connection is closed unless the rest succeeds.
  unfoldable pub closing : {A : Type 0} → p.Conn → Action (Dialing p) A → Action (Dialing p) A
  unfolding close_net_conn
  closing conn m s = let (r, s') = m s in (r, closed_unless_ok r conn s')

  -- The default dial function: ZitiTransport.DialContext, of a transport that may be nil
  unfoldable pub dialer_of_transport : Option ℕ → Result (NetDialer p)
  unfolding in_world
  dialer_of_transport none = panic "invalid memory address or nil pointer dereference"
  dialer_of_transport (some n) = ok (λ network address. in_world (transport_dial p network address))

  unfoldable pub ziti_dialer : Action (Dialing p) (NetDialer p)
  unfolding dialer_of_transport
  ziti_dialer s = (dialer_of_transport s.world.websocket, s)

  unfoldable pub choose_plain :
      Option (NetDialer p) → Option (NetDialer p) → Action (Dialing p) (NetDialer p)
  unfolding ziti_dialer
  choose_plain (some f) o = pure f
  choose_plain none (some f) = pure f
  choose_plain none none = ziti_dialer

  -- `u.Scheme == "https" && d.NetDialTLSContext != nil`, or the rest of the switch
  unfoldable pub choose_tls :
      Bool
      → Option (NetDialer p)
      → Action (Dialing p) (NetDialer p)
      → Action (Dialing p) (NetDialer p)
  choose_tls true (some f) rest = pure f
  choose_tls true none rest = rest
  choose_tls false o rest = rest

  -- The switch on the dialer's functions, for the URL's scheme.
  unfoldable pub choose_dialer : Dialer p wire → Url → Action (Dialing p) (NetDialer p)
  unfolding choose_plain choose_tls
  choose_dialer d u =
      choose_tls (u.scheme == "https") d.net_dial_tls_context
        (choose_plain d.net_dial_context d.net_dial)

  -- The dial function that sets the handshake's deadline on the connection of another; SetDeadline gives an
  -- error or none, and does not panic.
  unfoldable pub deadline_dialer : NetDialer p → NetDialer p
  unfolding on_net closing
  deadline_dialer dial network address = do
    conn ← dial network address
    closing conn (on_net (wire.set_deadline conn) >> pure conn)

  unfoldable pub limit_dialer : ℕ → NetDialer p → NetDialer p
  unfolding deadline_dialer
  limit_dialer timeout dial = if eqb timeout 0 then dial else deadline_dialer dial

  abbrev pub through : Option Url → NetDialer p → Result (NetDialer p)
  through none dial = ok dial
  through (some url) dial = wire.proxy_from_url url dial

  -- The dial function behind a proxy, if the dialer has one for the request.
  unfoldable pub proxy_dialer :
      Option (Request → Result (Option Url))
      → Request
      → NetDialer p
      → Action (Dialing p) (NetDialer p)
  proxy_dialer none req dial = pure dial
  proxy_dialer (some proxy) req dial = lift (proxy req) >>= λ url. lift (through url dial)
