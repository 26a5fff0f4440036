-- ===== src/Stdnet.antt =====
-- lib/pion-transport/stdnet/net.go, the network of the WebRTC stack, in which ListenPacket was made to
-- dial through ziti. The functions that only pass on to Go's `net` are left out.
pub mod Lookup
pub mod Packets
use ziti_livekit_example.Prelude.{
  ℕ, ◌+◌, String, ◌==◌, ◌<>◌, List, [], ◌∷◌, ◌++◌, eqb, if◌then◌else◌,
}
use ziti_livekit_example.Outcome.{
  reason, Result, ok, err, panic, Action, pure, lift, modify, ◌>>=◌, ◌>>◌,
}
use ziti_livekit_example.Openziti.Platform.{Platform, World}
use ziti_livekit_example.Openziti.Setup.{transport_dial}

-- What the system says of an interface, and a transport.Interface.
pub record OsInterface : Type 0 where
  pub index : ℕ
  pub name : String

pub record Interface : Type 0 where
  pub index : ℕ
  pub name : String
  pub addrs : List String

-- What the package takes from the system: the interfaces and their addresses, address resolution,
-- and the operations of a connection.
pub record System (p : Platform) : Type 1 where
  pub interfaces : Result (List OsInterface)
  pub interface_addrs : OsInterface → Result (List String)
  pub resolve_udp_addr : String → String → Result String
  pub read : p.Conn → ℕ → p.Net → Result (List ℕ) × p.Net
  pub write : p.Conn → List ℕ → p.Net → Result ℕ × p.Net
  pub close : p.Conn → p.Net → Result (Unit {0}) × p.Net
  pub set_deadline : p.Conn → ℕ → p.Net → Result (Unit {0}) × p.Net
  pub set_read_deadline : p.Conn → ℕ → p.Net → Result (Unit {0}) × p.Net
  pub set_write_deadline : p.Conn → ℕ → p.Net → Result (Unit {0}) × p.Net

-- ZitiPacketConn
pub record ZitiPacketConn (p : Platform) : Type 0 where
  pub ziti_con : p.Conn
  pub network : String
  pub address : String

-- A Net, with the variable `allcons`, the first connection first, the goroutines that log
-- it each second, and the world of lib/openziti.
pub record Net (p : Platform) : Type 0 where
  pub world : World p
  pub interfaces : List Interface
  pub allcons : List (ZitiPacketConn p)
  pub loggers : ℕ

-- InterfaceByIndex; the index is left out of the error's text
unfoldable pub interface_by_index : ℕ → List Interface → Result Interface
interface_by_index index [] = err (reason "interface not found")
interface_by_index index (ifc ∷ ifcs) =
    let rest = interface_by_index index ifcs in if eqb ifc.index index then ok ifc else rest

-- InterfaceByName
unfoldable pub interface_by_name : String → List Interface → Result Interface
interface_by_name name [] = err (reason ("interface not found: " <> name))
interface_by_name name (ifc ∷ ifcs) =
    let rest = interface_by_name name ifcs in if ifc.name == name then ok ifc else rest

module _ {p : Platform} (sys : System p) where
  -- transport.NewInterface, and AddAddress of each address
  unfoldable pub with_addrs : OsInterface → Result (List String) → Result Interface
  with_addrs oif (ok l) = ok (record { index = oif.index; name = oif.name; addrs = l })
  with_addrs oif (err e) = err e
  with_addrs oif (panic t) = panic t

  unfoldable pub prepend : Result Interface → Result (List Interface) → Result (List Interface)
  prepend (err e) r = err e
  prepend (panic t) r = panic t
  prepend (ok i) (ok is) = ok (i ∷ is)
  prepend (ok i) (err e) = err e
  prepend (ok i) (panic t) = panic t

  -- The loop of UpdateInterfaces, which returns at the first error.
  unfoldable pub collect : List OsInterface → Result (List Interface)
  unfolding with_addrs prepend
  collect [] = ok []
  collect (oif ∷ oifs) = prepend (with_addrs oif (sys.interface_addrs oif)) (collect oifs)

  -- UpdateInterfaces
  unfoldable pub update_interfaces : Action (Net p) (Unit {0})
  unfolding collect
  update_interfaces = do
    oifs ← lift sys.interfaces
    ifs ← lift (collect oifs)
    modify (λ n. record n { interfaces = ifs })

  -- NewNet, in a world and with the connections that other Nets have made
  unfoldable pub new_net : World p → List (ZitiPacketConn p) → ℕ → Result (Unit {0}) × Net p
  unfolding update_interfaces
  new_net w cons loggers =
      update_interfaces (record { world = w; interfaces = []; allcons = cons; loggers = loggers })

  -- Interfaces
  unfoldable pub all_interfaces : Net p → Result (List Interface)
  all_interfaces n = ok n.interfaces

  -- A function of lib/openziti.
  unfoldable pub in_world : {A : Type 0} → Action (World p) A → Action (Net p) A
  in_world m n = let (r, w) = m n.world in (r, record n { world = w })

  -- A call on a connection, on the network of the world.
  unfoldable pub on_conn : {A : Type 0} → (p.Net → Result A × p.Net) → Action (Net p) A
  on_conn f n =
      let (r, net') = f n.world.net in (r, record n { world = record n.world { net = net' } })

  -- ListenPacket: the address is resolved and dialled, and the connection is kept in `allcons`
  unfoldable pub listen_packet : String → String → Action (Net p) (ZitiPacketConn p)
  unfolding in_world
  listen_packet network address = do
    udp_addr ← lift (sys.resolve_udp_addr network address)
    conn ← in_world (transport_dial p network address)
    let zpc : ZitiPacketConn p = record { ziti_con = conn; network = network; address = udp_addr }
    modify (λ n. record n { allcons = n.allcons ++ zpc ∷ []; loggers = n.loggers + 1 })
    pure zpc

  -- (*ZitiPacketConn).ReadFrom: the bytes, and the address that is said to have sent them
  unfoldable pub read_from : ZitiPacketConn p → ℕ → Action (Net p) (List ℕ × String)
  unfolding on_conn
  read_from z size = do b ← on_conn (sys.read z.ziti_con size); pure (b, z.address)

  -- (*ZitiPacketConn).WriteTo
  unfoldable pub write_to : ZitiPacketConn p → List ℕ → String → Action (Net p) ℕ
  unfolding on_conn
  write_to z b addr = on_conn (sys.write z.ziti_con b)

  -- (*ZitiPacketConn).Close
  unfoldable pub close : ZitiPacketConn p → Action (Net p) (Unit {0})
  unfolding on_conn
  close z = on_conn (sys.close z.ziti_con)

  -- (*ZitiPacketConn).LocalAddr
  unfoldable pub local_addr : ZitiPacketConn p → String × ℕ
  local_addr z = ("0.0.0.0", 0)

  -- (*ZitiPacketConn).SetDeadline, SetReadDeadline and SetWriteDeadline
  unfoldable pub set_deadline : ZitiPacketConn p → ℕ → Action (Net p) (Unit {0})
  unfolding on_conn
  set_deadline z t = on_conn (sys.set_deadline z.ziti_con t)

  unfoldable pub set_read_deadline : ZitiPacketConn p → ℕ → Action (Net p) (Unit {0})
  unfolding on_conn
  set_read_deadline z t = on_conn (sys.set_read_deadline z.ziti_con t)

  unfoldable pub set_write_deadline : ZitiPacketConn p → ℕ → Action (Net p) (Unit {0})
  unfolding on_conn
  set_write_deadline z t = on_conn (sys.set_write_deadline z.ziti_con t)
