-- ===== src/Ice/Gather/Dialling.antt =====
-- How the connections to TURN servers are made, in the contexts of a net.
use mathlib.Core.List.{Memᴰ}
use ziti_livekit_example.Prelude.{
  ◌≡◌, refl, sym, ap, ◌∙◌, String, ◌⊎◌, Bool, Option, none, some, List, arith,
}
use ziti_livekit_example.Outcome.{Error, Result, ok, err, panic, Action, pure, fail, ◌>>=◌}
use ziti_livekit_example.Outcome.Triples.{Meets, Triple, Triple-bind, Triple-lift, Triple-pure}
use ziti_livekit_example.Openziti.Platform.{Platform, World}
use ziti_livekit_example.Openziti.Setup.{fallback_dial, transport_dial}
use ziti_livekit_example.Stdnet.{ZitiPacketConn, System, Net, listen_packet, in_world}
use ziti_livekit_example.Stdnet.Packets.{listen_packet-eq-ok}
use ziti_livekit_example.Ice.Types.{
  Uri, turn, turns, udp, tcp, Scheme, Proto, stun, stuns, unknown_scheme, unknown_proto, LocConn,
  ziti, stun_conn, fake_conn, Libs, Agent, Config,
}
use ziti_livekit_example.Ice.Relay.{tallied}
use ziti_livekit_example.Ice.Relay.Calls.{Triple-on_err, Triple-opening}
use ziti_livekit_example.Ice.Gather.{
  turn_server_addr, in_net, listen_udp, Local, one_conn, dial_tcp, tcp_addr, over_stun, over_tcp,
  over_tls, over_dtls, over_proxy, local_conn,
}
use ziti_livekit_example.Ice.Gather.Connections.{result_of-calm}
use ziti_livekit_example.Ice.Gather.Routes.{
  Routed, Routed-on_lib, Routed-opening, Routed-close_conn,
}

module _ {p : Platform} (sys : System p) (lib : Libs p) where
  -- A connection that was dialled in the ziti contexts of a collection.
  abbrev pub DialledIn : p.CtxCollection → String → p.Conn → Type 0
  DialledIn cs address conn =
      (net1 : p.Net) × (net2 : p.Net) × (p.collection_dial cs (fallback_dial p) "udp4" address net1
        ≡ (ok conn, net2))

  transport_dial-eq-ok :
      (address : String) (w : World p) {cs : p.CtxCollection} {conn : p.Conn} {w' : World p}
      → w.ziti_contexts ≡ some cs
      → transport_dial p "udp4" address w ≡ (ok conn, w')
      → DialledIn cs address conn
  unfolding transport_dial
  transport_dial-eq-ok address w {cs} {conn} {w'} e h = (w.net, w'.net, ground arith)

  ziti_contexts-listen_packet :
      (network address : String) (n : Net p)
      → (listen_packet sys network address n).1.world.ziti_contexts ≡ n.world.ziti_contexts
  unfolding listen_packet in_world transport_dial ◌>>=◌
  ziti_contexts-listen_packet network address n = ground arith

  module _ (R : LocConn p lib.Conn → Type 0) (cs : p.CtxCollection) where
    -- A connection that was dialled in the collection.
    abbrev Dialling : String → ZitiPacketConn p → Agent lib → Type 0
    Dialling address z a = Routed sys lib R cs a × DialledIn cs address z.ziti_con

    Routed-with_net :
        (a : Agent lib) (n : Net p)
        → n.world.ziti_contexts ≡ a.net.world.ziti_contexts
        → Routed sys lib R cs a
        → Routed sys lib R cs (record a { net = n })
    Routed-with_net a n e h = record { collection = e ∙ h.collection; routes = h.routes }

    Meets-listened :
        (address : String) (a : Agent lib) (r : Result (ZitiPacketConn p)) (n : Net p)
        → listen_packet sys "udp4" address a.net ≡ (r, n)
        → Routed sys lib R cs (record a { net = n })
        → a.net.world.ziti_contexts ≡ some cs
        → Meets
            (Dialling address)
            (Routed sys lib R cs)
            (Routed sys lib R cs)
            r
            (record a { net = n })
    Meets-listened address a (ok z) n e h c =
        let l = listen_packet-eq-ok sys "udp4" address a.net e in
        let (net1, net2, dialled) = transport_dial-eq-ok address a.net.world c l.dialled in
        (
          h,
          (
            net1,
            net2,
            dialled ∙ ap (λ (x : ZitiPacketConn p). (ok x.ziti_con, net2)) (sym l.whole),
          ),
        )
    Meets-listened address a (err x) n e h c = h
    Meets-listened address a (panic t) n e h c = h

    -- What ListenPacket gives is dialled in the collection of the net.
    Triple-in_net :
        (address : String)
        → Triple
            (Routed sys lib R cs)
            (in_net sys lib (listen_packet sys "udp4" address))
            (Dialling address)
            (Routed sys lib R cs)
            (Routed sys lib R cs)
    unfolding in_net
    Triple-in_net address = record {
      at = λ a h.
          Meets-listened address a _ _ refl
            (Routed-with_net a _ (ziti_contexts-listen_packet "udp4" address a.net) h) h.collection;
    }

    -- The outcome of a connection attempt: a route, on success.
    abbrev pub Routes : Action (Agent lib) (Local sys lib) → Type 0
    Routes m =
        Triple (Routed sys lib R cs) m (λ l a. Routed sys lib R cs a × R l.loc_conn)
          (Routed sys lib R cs) (Routed sys lib R cs)

    Routes-listen_udp :
        (url : Uri)
        → ((z : ZitiPacketConn p)
            → DialledIn cs (turn_server_addr sys lib url) z.ziti_con
            → R (ziti z))
        → Routes (listen_udp sys lib url)
    unfolding listen_udp tallied
    Routes-listen_udp url k =
        let address = turn_server_addr sys lib url in
        Triple-bind {Q = Dialling address} _ _
          (Triple-opening sys lib one_conn _ (Triple-in_net address)
            λ z a h. (record { collection = h.0.collection; routes = h.0.routes }, h.1))
          (λ z. Triple-pure _ (λ a h. (h.0, k z h.1)))

    Routes-over_stun :
        (t : String) (m : Action (Agent lib) lib.Conn)
        → Triple
            (Routed sys lib R cs)
            m
            (λ c. Routed sys lib R cs)
            (Routed sys lib R cs)
            (Routed sys lib R cs)
        → ((c : lib.Conn) → R (stun_conn c))
        → Routes (m >>= λ c. pure (over_stun sys lib t c))
    Routes-over_stun t m h k = Triple-bind _ _ h (λ c. Triple-pure _ (λ a q. (q, k c)))

    Routed-dial_tcp :
        (url : Uri)
        → Triple
            (Routed sys lib R cs)
            (dial_tcp sys lib url)
            (λ c. Routed sys lib R cs)
            (Routed sys lib R cs)
            (Routed sys lib R cs)
    unfolding dial_tcp tcp_addr
    Routed-dial_tcp url =
        Triple-bind _ _ (Triple-lift _ (result_of-calm _))
          (λ addr. Routed-opening sys lib one_conn _)

    Routes-over_tcp :
        (url : Uri) → ((c : lib.Conn) → R (stun_conn c)) → Routes (over_tcp sys lib url)
    unfolding over_tcp
    Routes-over_tcp url k = Routes-over_stun "tcp" _ (Routed-dial_tcp url) k

    Routes-over_tls :
        (b : Bool) (url : Uri)
        → ((c : lib.Conn) → R (stun_conn c))
        → Routes (over_tls sys lib b url)
    unfolding over_tls
    Routes-over_tls b url k = Triple-bind _ _ (Routed-dial_tcp url) λ c.
        Triple-bind _ _
          (Triple-on_err sys lib _ _ (Routed-on_lib sys lib _)
            (Routed-close_conn sys lib (stun_conn c)))
          (λ u. Triple-pure _ (λ a q. (q, k (lib.tls_client c url.host b))))

    Routes-over_dtls :
        (b : Bool) (url : Uri)
        → ((c : lib.Conn) → R (fake_conn c))
        → Routes (over_dtls sys lib b url)
    unfolding over_dtls
    Routes-over_dtls b url k = Triple-bind _ _ (Triple-lift _ (result_of-calm _)) λ addr.
        Triple-bind _ _ (Routed-opening sys lib one_conn _)
          λ udp_conn. Triple-bind _ _ (Routed-on_lib sys lib _) λ c. Triple-pure _ (λ a q. (q, k c))

    Routes-over_proxy :
        (o : Option (String → String → p.Net → (Error ⊎ lib.Conn) × p.Net)) (t : String) (url : Uri)
        (direct : Action (Agent lib) (Local sys lib))
        → ((c : lib.Conn) → R (stun_conn c))
        → Routes direct
        → Routes (over_proxy sys lib o t url direct)
    unfolding over_proxy
    Routes-over_proxy none t url direct k h = h
    Routes-over_proxy (some dial) t url direct k h =
        Routes-over_stun t _ (Routed-opening sys lib one_conn _) k

  -- How a candidate's connection to its TURN server was made: through ziti for a "turn" URL over UDP, at the
  -- server's host and port, and otherwise for a URL over TCP, or for a "turns" URL over UDP.
  abbrev pub IsRoute : p.CtxCollection → List Uri → LocConn p lib.Conn → Type 0
  IsRoute cs urls (ziti z) =
      (url : Uri) × Memᴰ url urls
      × (url.proto ≡ udp)
      × (url.scheme ≡ turn)
      × DialledIn cs (turn_server_addr sys lib url) z.ziti_con
  IsRoute cs urls (stun_conn c) = (url : Uri) × Memᴰ url urls × (url.proto ≡ tcp)
  IsRoute cs urls (fake_conn c) =
      (url : Uri) × Memᴰ url urls × (url.proto ≡ udp) × (url.scheme ≡ turns)

  Routes-fail :
      {R : LocConn p lib.Conn → Type 0} {cs : p.CtxCollection} (e : Error) → Routes R cs (fail e)
  unfolding fail
  Routes-fail e = record { at = λ a h. h }

  pub Routes-local_conn :
      (cs : p.CtxCollection) (urls : List Uri) (cfg : Config lib) (url : Uri) (t : Proto)
      (s : Scheme)
      → Memᴰ url urls
      → url.proto ≡ t
      → url.scheme ≡ s
      → Routes (IsRoute cs urls) cs (local_conn sys lib cfg url t s)
  unfolding local_conn
  Routes-local_conn cs urls cfg url udp turn m e f =
      Routes-listen_udp _ _ url (λ z d. (url, m, e, f, d))
  Routes-local_conn cs urls cfg url tcp turn m e f =
      Routes-over_proxy _ _ _ _ url _ (λ c. (url, m, e))
        (Routes-over_tcp _ _ url (λ c. (url, m, e)))
  Routes-local_conn cs urls cfg url udp turns m e f =
      Routes-over_dtls _ _ _ url (λ c. (url, m, e, f))
  Routes-local_conn cs urls cfg url tcp turns m e f =
      Routes-over_proxy _ _ _ _ url _ (λ c. (url, m, e))
        (Routes-over_tls _ _ _ url (λ c. (url, m, e)))
  Routes-local_conn cs urls cfg url udp stun m e f = Routes-fail _
  Routes-local_conn cs urls cfg url udp stuns m e f = Routes-fail _
  Routes-local_conn cs urls cfg url udp unknown_scheme m e f = Routes-fail _
  Routes-local_conn cs urls cfg url tcp stun m e f = Routes-fail _
  Routes-local_conn cs urls cfg url tcp stuns m e f = Routes-fail _
  Routes-local_conn cs urls cfg url tcp unknown_scheme m e f = Routes-fail _
  Routes-local_conn cs urls cfg url unknown_proto s m e f = Routes-fail _
