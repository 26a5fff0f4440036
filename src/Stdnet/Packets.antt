-- ===== src/Stdnet/Packets.antt =====
-- The connections that ListenPacket makes, and what reading, writing and closing them does.
use ziti_livekit_example.Prelude.{ℕ, ◌+◌, String, ◌≡◌, ap, sym, ◌∙◌, List, [], ◌∷◌, ◌++◌, arith}
use ziti_livekit_example.Outcome.{ok, Action}
use ziti_livekit_example.Outcome.Inversion.{bind-eq-ok, lift_bind-eq-ok, modify-eq-ok, pure-eq-ok}
use ziti_livekit_example.Openziti.Platform.{Platform, World}
use ziti_livekit_example.Openziti.Setup.{transport_dial}
use ziti_livekit_example.Stdnet.{
  System, ZitiPacketConn, Net, in_world, on_conn, listen_packet, write_to, close,
}

module _ {p : Platform} (sys : System p) where
  in_world-eq-ok :
      {A : Type 0} (m : Action (World p) A) (n : Net p) {a : A} {n' : Net p}
      → in_world sys m n ≡ (ok a, n')
      → (m n.world ≡ (ok a, n'.world))
        × (n'.allcons ≡ n.allcons)
        × (n'.loggers ≡ n.loggers)
        × (n'.interfaces ≡ n.interfaces)
  unfolding in_world
  in_world-eq-ok m n h = ground arith

  -- What a connection that ListenPacket gave is: the one that the transport dialled, under the address
  -- that was resolved, kept as the last of all.
  pub record Listening (network address : String) (n : Net p) (z : ZitiPacketConn p) (n' : Net p)
      : Type 0 where
    pub conn : p.Conn
    pub udp_addr : String
    pub resolved : sys.resolve_udp_addr network address ≡ ok udp_addr
    pub dialled : transport_dial p network address n.world ≡ (ok conn, n'.world)
    pub whole : z ≡ record { ziti_con = conn; network = network; address = udp_addr }
    pub kept : n'.allcons ≡ n.allcons ++ z ∷ []
    pub logged : n'.loggers ≡ n.loggers + 1
    pub interfaces : n'.interfaces ≡ n.interfaces

  -- A successful ListenPacket resolved the address and dialled it, through ziti, where it is asked to
  -- listen; the connection is the last of `allcons` and has one goroutine of its own.
  pub listen_packet-eq-ok :
      (network address : String) (n : Net p) {z : ZitiPacketConn p} {n' : Net p}
      → listen_packet sys network address n ≡ (ok z, n')
      → Listening network address n z n'
  unfolding listen_packet
  listen_packet-eq-ok network address n {z} {n'} h =
      let (udp, resolved, k1) = lift_bind-eq-ok _ _ n h in
      let (conn, a, h2, k2) = bind-eq-ok _ _ n k1 in
      let (dialled, allcons, loggers, interfaces) =
        in_world-eq-ok (transport_dial p network address) n h2 in
      let (u, b, h3, k3) = bind-eq-ok _ _ a k2 in
      let (whole, same) = pure-eq-ok k3 in
      let after = modify-eq-ok _ h3 ∙ same in
      record {
        conn = conn;
        udp_addr = udp;
        resolved = resolved;
        dialled = dialled ∙ ap (λ (x : Net p). (ok conn, x.world)) after;
        whole = sym whole;
        kept = ground (arith, after, allcons, whole);
        logged = ground (arith, after, loggers);
        interfaces = ground (arith, after, interfaces);
      }

  -- Closing a connection that ListenPacket gave leaves it the last of `allcons`, and its goroutine
  -- running, whatever closing it gives.
  pub close-listen_packet :
      (network address : String) (n : Net p) {z : ZitiPacketConn p} {n' : Net p}
      → listen_packet sys network address n ≡ (ok z, n')
      → ((close sys z n').1.allcons ≡ n.allcons ++ z ∷ [])
        × ((close sys z n').1.loggers ≡ n.loggers + 1)
  unfolding close on_conn
  close-listen_packet network address n h =
      let l = listen_packet-eq-ok network address n h in (l.kept, l.logged)

  -- A packet written to a connection that ListenPacket gave goes to the connection that was dialled for
  -- the address to listen on, whatever address it is for.
  pub write_to-listen_packet :
      (network address : String) (n : Net p) {z : ZitiPacketConn p} {n' : Net p} (b : List ℕ)
      (addr : String)
      → listen_packet sys network address n ≡ (ok z, n')
      → (conn : p.Conn) × (transport_dial p network address n.world ≡ (ok conn, n'.world))
        × ((write_to sys z b addr n').0 ≡ (sys.write conn b n'.world.net).0)
        × ((write_to sys z b addr n').1.world.net ≡ (sys.write conn b n'.world.net).1)
  unfolding write_to on_conn
  write_to-listen_packet network address n {z} {n'} b addr h =
      let l = listen_packet-eq-ok network address n h in
      let same : z.ziti_con ≡ l.conn = ap (λ (x : ZitiPacketConn p). x.ziti_con) l.whole in
      (
        l.conn,
        l.dialled,
        ap (λ c. (sys.write c b n'.world.net).0) same,
        ap (λ c. (sys.write c b n'.world.net).1) same,
      )
