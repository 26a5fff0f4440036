-- ===== src/Subscriber/Session/Restarts.antt =====
-- The rooms that the subscriber's main loop leaves open.
use ziti_livekit_example.Prelude.{ℕ, ◌≡◌, arith}
use ziti_livekit_example.Outcome.{◌>>=◌}
use ziti_livekit_example.Openziti.Platform.{Platform}
use ziti_livekit_example.Livekit.{
  Livekit, Session, rooms_open, in_world, sdk_call, sdk_do, make_room, the_room, make_client,
  room_call,
}
use ziti_livekit_example.Livekit.Rounds.{going, state, rounds}
use ziti_livekit_example.Livekit.Rounds.Measures.{rounds-keeps}
use ziti_livekit_example.Subscriber.Session.{connect_to_livekit, create_livekit_access_token, run}

module _ (p : Platform) (lk : Livekit p) where
  abbrev open_in : Session p lk → ℕ
  open_in s = rooms_open s.calls

  run-rooms : (s : Session p lk) → open_in (run p lk s).1 ≡ open_in s
  unfolding run connect_to_livekit create_livekit_access_token in_world sdk_call sdk_do make_room
      the_room rooms_open make_client room_call ◌>>=◌
  run-rooms s = ground arith

  -- After any number of rounds of the subscriber's main loop, whatever fails in them, as many rooms are
  -- open as there were: each run leaves the room that it has joined.
  pub subscriber_rounds-rooms :
      (n : ℕ) (s : Session p lk)
      → rooms_open (state (rounds (run p lk) n (going s))).calls ≡ rooms_open s.calls
  subscriber_rounds-rooms n s = rounds-keeps (run p lk) open_in run-rooms n (going s)
