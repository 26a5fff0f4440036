-- ===== src/Publisher/Session/Restarts.antt =====
-- The rooms that the publisher's main loop leaves open.
use ziti_livekit_example.Prelude.{ℕ, ◌+◌, ◌-◌, ◌≡◌, arith}
use ziti_livekit_example.Outcome.{Result, ok, err, panic, ◌>>=◌, continue}
use ziti_livekit_example.Openziti.Platform.{Platform}
use ziti_livekit_example.Livekit.{
  Livekit, Session, rooms_open, in_world, sdk_call, sdk_do, make_room, the_room, make_client,
  room_call,
}
use ziti_livekit_example.Livekit.Rounds.{going, state, rounds}
use ziti_livekit_example.Livekit.Rounds.Measures.{total, rounds-total}
use ziti_livekit_example.Publisher.Triangle.{Image}
use ziti_livekit_example.Publisher.Session.{
  connect_to_livekit, create_livekit_access_token, set_metadata, enter, stay, run,
}
use ziti_livekit_example.Publisher.Session.Rooms.{set_metadata-rooms, publish_track-rooms}

module _ (p : Platform) (lk : Livekit p) where
  abbrev open_in : Session p lk → ℕ
  open_in s = rooms_open s.calls

  -- One room more once it is joined.
  abbrev entered : Result lk.Room → ℕ → ℕ
  entered (ok r) n = n + 1
  entered (err e) n = n
  entered (panic t) n = n

  enter-rooms : (s : Session p lk) → open_in (enter p lk s).1 ≡ entered (enter p lk s).0 (open_in s)
  unfolding enter connect_to_livekit create_livekit_access_token in_world sdk_call make_room
      the_room rooms_open make_client room_call ◌>>=◌
  enter-rooms s = ground arith

  -- A stay that ends as it should leaves the room, and no other does.
  abbrev left : Result (Unit {0}) → ℕ → ℕ
  left (ok u) n = n - 1
  left (err e) n = n
  left (panic t) n = n

  stay-rooms :
      (triangle : Image) (room : lk.Room) (s : Session p lk)
      → open_in (stay p lk triangle room s).1 ≡ left (stay p lk triangle room s).0 (open_in s)
  unfolding stay sdk_do rooms_open ◌>>=◌
  stay-rooms triangle room s = ground (
    arith,
    set_metadata-rooms p lk s,
    publish_track-rooms p lk triangle.width triangle.height (set_metadata p lk s).1,
  )

  -- One for an outcome other than success.
  abbrev pub one_unless_ok : Result (Unit {0}) → ℕ
  one_unless_ok (ok u) = 0
  one_unless_ok (err e) = 1
  one_unless_ok (panic t) = 1

  abbrev pub stranded_after : Image → Result lk.Room → Session p lk → ℕ
  stranded_after triangle (ok room) a = one_unless_ok (stay p lk triangle room a).0
  stranded_after triangle (err e) a = 0
  stranded_after triangle (panic t) a = 0

  -- One for a run that joins its room and then does not come to its end, none for any other.
  abbrev pub stranded : Image → Session p lk → ℕ
  stranded triangle s = stranded_after triangle (enter p lk s).0 (enter p lk s).1

  left-one :
      (r : Result (Unit {0})) (a b n : ℕ) → a ≡ n + 1 → b ≡ left r a → b ≡ n + one_unless_ok r
  left-one (ok u) a b n h k = omega arith
  left-one (err e) a b n h k = omega arith
  left-one (panic t) a b n h k = omega arith

  continued-rooms :
      (triangle : Image) (r : Result lk.Room) (a : Session p lk) (n : ℕ)
      → open_in a ≡ entered r n
      → open_in (continue r (stay p lk triangle) a).1 ≡ n + stranded_after triangle r a
  continued-rooms triangle (ok room) a n h =
      left-one (stay p lk triangle room a).0 (open_in a) _ n h (stay-rooms triangle room a)
  continued-rooms triangle (err e) a n h = omega arith
  continued-rooms triangle (panic t) a n h = omega arith

  run-rooms :
      (triangle : Image) (s : Session p lk)
      → open_in (run p lk triangle s).1 ≡ open_in s + stranded triangle s
  unfolding run ◌>>=◌
  run-rooms triangle s =
      continued-rooms triangle (enter p lk s).0 (enter p lk s).1 (open_in s) (enter-rooms s)

  -- After any number of rounds of the publisher's main loop, the rooms that are open are those that were
  -- open before, and one more for each of the rounds whose run joined its room and then failed or
  -- panicked: every other run leaves the room that it joined.
  pub publisher_rounds-rooms :
      (triangle : Image) (n : ℕ) (s : Session p lk)
      → rooms_open (state (rounds (run p lk triangle) n (going s))).calls
        ≡ rooms_open s.calls + total (run p lk triangle) (stranded triangle) n (going s)
  publisher_rounds-rooms triangle n s =
      rounds-total (run p lk triangle) open_in (stranded triangle) (run-rooms triangle) n (going s)
