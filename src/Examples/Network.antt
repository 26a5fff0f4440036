-- ===== src/Examples/Network.antt =====
-- A system with two interfaces, and connections through a transport.
use ziti_livekit_example.Prelude.{◌+◌, String, ◌≡◌, refl, ◌<>◌, [], ◌∷◌, some}
use ziti_livekit_example.Outcome.{ok, ◌>>=◌}
use ziti_livekit_example.Openziti.Setup.{transport_dial, fallback_dial}
use ziti_livekit_example.Stdnet.{System, ZitiPacketConn, Net, in_world, listen_packet, write_to}
use ziti_livekit_example.Stdnet.Packets.{write_to-listen_packet}
use ziti_livekit_example.Examples.Surroundings.{plain, first_world}

abbrev pub system : System plain
system = record {
  interfaces = ok (record { index = 1; name = "lo" } ∷ record { index = 2; name = "eth0" } ∷ []);
  interface_addrs = λ oif. ok ((oif.name <> "-address") ∷ []);
  resolve_udp_addr = λ network address. ok ("resolved " <> address);
  read = λ conn size n. (ok [], n);
  write = λ conn b n. (ok 3, n + 1);
  close = λ conn n. (ok tt, n);
  set_deadline = λ conn t n. (ok tt, n);
  set_read_deadline = λ conn t n. (ok tt, n);
  set_write_deadline = λ conn t n. (ok tt, n);
}

-- A net in the world of a program that has its dialers.
abbrev pub net : Net plain
net = record {
  world = record first_world { ziti_contexts = some (4 ∷ []) };
  interfaces = [];
  allcons = [];
  loggers = 0;
}

-- The connection that is made for a port.
abbrev made : ZitiPacketConn plain
made = record { ziti_con = "turn:3478"; network = "udp"; address = "resolved turn:3478" }

listens :
    listen_packet system "udp" "turn:3478" net
    ≡ (ok made, (listen_packet system "udp" "turn:3478" net).1)
unfolding listen_packet in_world transport_dial fallback_dial ◌>>=◌
listens = refl

-- The net once that connection is made.
abbrev listening : Net plain
listening = (listen_packet system "udp" "turn:3478" net).1

write_to-listen_packet_example :
    (conn : String) × (transport_dial plain "udp" "turn:3478" net.world
      ≡ (ok conn, listening.world))
    × ((write_to system made (1 ∷ []) "peer:9" listening).0 ≡ ok 3)
    × ((write_to system made (1 ∷ []) "peer:9" listening).1.world.net ≡ listening.world.net + 1)
write_to-listen_packet_example =
    write_to-listen_packet system "udp" "turn:3478" net (1 ∷ []) "peer:9" listens
