-- ===== src/Examples/Media.antt =====
-- Runs of the publisher and of the subscriber on a server that refuses a track too wide, an encoder that
-- fails after three frames, and a track.
use ziti_livekit_example.Prelude.{
  ℕ, ◌+◌, ◌-◌, ◌/◌, String, ◌≡◌, refl, ◌<>◌, ◌&&◌, List, [], ◌∷◌, none, if◌then◌else◌, leb, arith,
}
use ziti_livekit_example.Prelude.Int.{pos}
use ziti_livekit_example.Outcome.{reason, ok, err, ◌>>=◌}
use ziti_livekit_example.Openziti.Disk.{file_error, read_file}
use ziti_livekit_example.Openziti.Setup.{
  init_con, setup_ziti_context, adopt_context, share_transport, setup_ziti_transport,
}
use ziti_livekit_example.Livekit.{
  Livekit, Session, rooms_open, in_world, sdk_call, sdk_do, make_room, the_room, room_call,
  make_client,
}
use ziti_livekit_example.Publisher.Triangle.{
  Float, Color, Image, red, left_x, right_x, draw_red_triangle,
}
use ziti_livekit_example.Publisher.Triangle.Pixels.{between, pixel-draw_red_triangle}
use ziti_livekit_example.Publisher.Session.{
  enter, stay, run, connect_to_livekit, create_livekit_access_token, set_metadata, publish_track,
}
use ziti_livekit_example.Publisher.Session.Rooms.{Performed, calls-publisher_run, run_failed-rooms}
use ziti_livekit_example.Publisher.Frames.{Media, Sample, waiting, send_frames}
use ziti_livekit_example.Publisher.Frames.Delivery.{Sent, send_frames-Sent}
use ziti_livekit_example.Subscriber.Session.{
  run as subscriber_run, connect_to_livekit as subscriber_connects,
  create_livekit_access_token as subscriber_signs,
}
use ziti_livekit_example.Subscriber.Session.Rooms.{
  Performed as SubscriberPerformed, calls-subscriber_run,
}
use ziti_livekit_example.Subscriber.TrackWriter.{
  TrackInfo, WriterCall, Recorder, on_track_subscribed,
}
use ziti_livekit_example.Subscriber.TrackWriter.Recording.{
  Subscribed, on_track_subscribed-Subscribed,
}
use ziti_livekit_example.Publisher.Session.Overlay.{Entered, enter-Entered}
use ziti_livekit_example.Subscriber.Session.Overlay.{Prepared, run-Prepared}
use ziti_livekit_example.Examples.RoomService.{twirp}
use ziti_livekit_example.Examples.Surroundings.{plain, first_world}

-- Numbers without a fraction.
abbrev whole : Float
whole = record {
  F = ℕ;
  of_int = λ n. n;
  to_int = λ n. pos n;
  add = λ a b. a + b;
  sub = λ a b. a;
  mul = λ a b. a;
  div = λ a b. a;
}

abbrev white : Color
white = record { r = 255; g = 255; b = 255; a = 255 }

pixel-draw_red_triangle_example : (draw_red_triangle whole 30 30 white).pixel 15 12 ≡ (
    if leb (30 / 2 - 30 / 3 / 2) 12
      && leb 12 (30 / 2 + 30 / 3 / 2)
      && between (left_x whole 30 30 12) (right_x whole 30 30 12) 15
    then red
    else white)
pixel-draw_red_triangle_example =
    pixel-draw_red_triangle whole 30 30 white 15 12 (omega arith) (omega arith)

-- A server that numbers its rooms, and takes tracks of at most 1000 pixels across.
abbrev pub server : Livekit plain
server = record {
  Server = ℕ;
  Room = ℕ;
  Track = String;
  twirp = twirp;
  twirp_error = λ e. reason e.msg;
  Message = String;
  marshal_list_rooms = ok "all";
  unmarshal_list_rooms = λ text. ok text;
  marshal_create_room = λ req. ok req.name;
  unmarshal_create_room = λ text. ok text;
  to_jwt = λ t. ok ("jwt of " <> t.identity);
  new_room = λ n. (n, n + 1);
  join_with_token = λ room endpoint token policy n. (ok tt, n);
  marshal_metadata = λ fields. ok "metadata";
  set_metadata = λ room text n. n;
  new_local_track = λ mime. ok mime;
  publish_track = λ room track w h n. (if leb w 1000 then ok tt else err (reason "too wide"), n);
  disconnect = λ room n. n;
}

abbrev pub session : Session plain server
session = record { world = first_world; server = 0; room_client = none; room = none; calls = [] }

abbrev pub picture : ℕ → Image
picture w = record { width = w; height = 10; pixel = λ x y. white }

publishes :
    run plain server (picture 20) session ≡ (ok tt, (run plain server (picture 20) session).1)
unfolding run enter stay connect_to_livekit create_livekit_access_token set_metadata publish_track
    in_world sdk_call sdk_do make_room the_room room_call make_client init_con setup_ziti_context
    read_file file_error adopt_context share_transport setup_ziti_transport ◌>>=◌
publishes = refl

calls-publisher_run_example :
    Performed plain server (picture 20) session (run plain server (picture 20) session).1
calls-publisher_run_example = calls-publisher_run plain server (picture 20) session publishes

enters : enter plain server session ≡ (ok 0, (enter plain server session).1)
unfolding enter connect_to_livekit create_livekit_access_token in_world sdk_call make_room the_room
    room_call make_client init_con setup_ziti_context read_file file_error adopt_context
    share_transport setup_ziti_transport ◌>>=◌
enters = refl

refused :
    (stay plain server (picture 2000) 0 (enter plain server session).1).0 ≡ err (reason "too wide")
unfolding enter stay connect_to_livekit create_livekit_access_token set_metadata publish_track
    in_world sdk_call sdk_do make_room the_room room_call make_client init_con setup_ziti_context
    read_file file_error adopt_context share_transport setup_ziti_transport ◌>>=◌
refused = refl

run_failed-rooms_example :
    ((run plain server (picture 2000) session).0 ≡ err (reason "too wide"))
    × (rooms_open (run plain server (picture 2000) session).1.calls ≡ rooms_open [] + 1)
run_failed-rooms_example = run_failed-rooms plain server (picture 2000) session enters refused

-- An encoder that counts its frames, and fails after three; a track that keeps its samples.
abbrev studio : Media
studio = record {
  Encoder = ℕ;
  Track = List Sample;
  new_params = ok tt;
  build_video_encoder = λ params. ok 0;
  read = λ screen n. (if leb 3 n then err (reason "encoder") else ok (n ∷ []), n + 1);
  write_sample = λ s track. (ok tt, s ∷ track);
}

send_frames-Sent_example : Sent whole studio 5 0 [] (send_frames whole studio 5 (waiting 0 []))
send_frames-Sent_example = send_frames-Sent whole studio 5 0 []

-- A recorder of packets that are numbers, in the order in which they come.
abbrev recorder : Recorder
recorder = record {
  Builder = ℕ;
  Writer = WriterCall;
  Packet = ℕ;
  payload_length = λ pkt. pkt;
  new_builder = λ config. config.max_late;
  new_writer = λ call. ok call;
  push = λ pkt sb. pkt;
  pop_packets = λ sb. (sb ∷ [], 0);
}

abbrev camera : TrackInfo
camera = record { id = "TR1"; ssrc = 7; mime_type = "video/VP9"; clock_rate = 90000; channels = 0 }

on_track_subscribed-Subscribed_example :
    Subscribed recorder camera
      ("publisher" <> ("-" <> "TR1"))
      []
      (on_track_subscribed recorder camera "publisher" [])
on_track_subscribed-Subscribed_example =
    on_track_subscribed-Subscribed recorder camera "publisher" []

records : subscriber_run plain server session ≡ (ok tt, (subscriber_run plain server session).1)
unfolding subscriber_run subscriber_connects subscriber_signs in_world sdk_call sdk_do make_room
    the_room room_call make_client init_con setup_ziti_context read_file file_error adopt_context
    share_transport setup_ziti_transport ◌>>=◌
records = refl

calls-subscriber_run_example :
    SubscriberPerformed server session (subscriber_run plain server session).1
calls-subscriber_run_example = calls-subscriber_run plain server session records

enter-Entered_example : Entered session (enter plain server session).1
enter-Entered_example = enter-Entered plain server session enters

run-Prepared_example : Prepared session
run-Prepared_example = run-Prepared plain server session records
