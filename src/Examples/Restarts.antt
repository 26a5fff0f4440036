-- ===== src/Examples/Restarts.antt =====
-- Programs that are run again, and a controller that goes away.
use ziti_livekit_example.Prelude.{none, ◌+◌, ◌≡◌, refl, [], leb, if◌then◌else◌}
use ziti_livekit_example.Outcome.{reason, ok, err, ◌>>=◌}
use ziti_livekit_example.Openziti.Platform.{Platform, World, session_request, client_do}
use ziti_livekit_example.Openziti.Auth.{
  Alive, Progress, looping, returned, keep_alive, keep_alive_loop, keep_alive_tick, after_tick,
}
use ziti_livekit_example.Openziti.Auth.Ending.{keep_alive-returned}
use ziti_livekit_example.Livekit.{rooms_open}
use ziti_livekit_example.Livekit.Rounds.{going, state, rounds}
use ziti_livekit_example.Livekit.Rounds.Measures.{total}
use ziti_livekit_example.Publisher.Session.{run}
use ziti_livekit_example.Publisher.Session.Restarts.{stranded, publisher_rounds-rooms}
use ziti_livekit_example.Subscriber.Session.{run as subscriber_run}
use ziti_livekit_example.Subscriber.Session.Restarts.{subscriber_rounds-rooms}
use ziti_livekit_example.Examples.Surroundings.{plain, token_disk}
use ziti_livekit_example.Examples.Media.{server, session, picture}

publisher_rounds-rooms_example :
    rooms_open (state (rounds (run plain server (picture 2000)) 3 (going session))).calls
    ≡ rooms_open session.calls
      + total
          (run plain server (picture 2000))
          (stranded plain server (picture 2000))
          3
          (going session)
publisher_rounds-rooms_example = publisher_rounds-rooms plain server (picture 2000) 3 session

subscriber_rounds-rooms_example :
    rooms_open (state (rounds (subscriber_run plain server) 3 (going session))).calls ≡ 0
unfolding rooms_open
subscriber_rounds-rooms_example = subscriber_rounds-rooms plain server 3 session

-- A controller that answers twice.
abbrev leaving : Platform
leaving = record plain {
  exchange = λ req n. (
    if leb 2 n then err (reason "gone") else ok (record { status = 200; body = ok "body" }),
    n + 1,
  );
}

abbrev at_start : World leaving
at_start = record {
  net = 0;
  disk = token_disk;
  session_token = "secret";
  ziti_context = none;
  ziti_contexts = none;
  transport = none;
  client = none;
  custom_dialer = none;
  websocket = none;
  transports = 0;
  keepalives = [];
  sent = [];
  open_bodies = 0;
}

abbrev alive : Progress leaving → Alive leaving
alive (looping s) = s
alive (returned w) = record { world = w; deferred = 0 }

abbrev ticked : Alive leaving
ticked = alive (keep_alive leaving "ctrl" 2 at_start)

keeps_alive : keep_alive leaving "ctrl" 2 at_start ≡ looping ticked
unfolding keep_alive keep_alive_loop after_tick keep_alive_tick session_request client_do ◌>>=◌
keeps_alive = refl

fails : (keep_alive_tick leaving "ctrl" ticked).0 ≡ err (reason "gone")
unfolding keep_alive keep_alive_loop after_tick keep_alive_tick session_request client_do ◌>>=◌
fails = refl

keep_alive-returned_example :
    (w : World leaving) × (keep_alive leaving "ctrl" (2 + 4) at_start ≡ returned w)
    × (w.open_bodies ≡ 0)
keep_alive-returned_example = keep_alive-returned leaving "ctrl" 2 3 at_start keeps_alive fails
