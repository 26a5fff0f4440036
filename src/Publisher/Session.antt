-- ===== src/Publisher/Session.antt =====
-- run of publisher/main.go: from the ziti context to a published track.
pub mod Restarts
pub mod Rooms
pub mod Overlay
use ziti_livekit_example.Prelude.{ℕ, ◌*◌, String, true, false, Option, none, some, List, [], ◌∷◌}
use ziti_livekit_example.Outcome.{Result, ok, err, panic, Action, pure, lift, modify, ◌>>=◌, ◌>>◌}
use ziti_livekit_example.Openziti.Platform.{Platform, World}
use ziti_livekit_example.Openziti.Setup.{init_con}
use ziti_livekit_example.RoomService.Types.{list_rooms, create_room}
use ziti_livekit_example.Livekit.{
  VideoGrant, AccessToken, relay, Livekit, listed, joined, metadata_set, published, disconnected,
  Session, in_world, make_client, room_call, make_room, the_room, sdk_call, sdk_do, call_list_rooms,
  call_create_room, join, set_room_metadata, publish, leave,
}
use ziti_livekit_example.Publisher.Triangle.{Image}

abbrev pub livekit_endpoint : String
livekit_endpoint = "wss://livekit.ziti.example:7880"

abbrev pub livekit_key : String
livekit_key = "GAkDU6thrPsKgxl"

abbrev pub livekit_secret : String
livekit_secret = "tZnZDeJGubl3tHJDPNvqfrQfmEkKcduQo0l23u9HY57"

abbrev pub width : ℕ
width = 1640

abbrev pub height : ℕ
height = 900

abbrev pub framerate : ℕ
framerate = 30

-- The grants of the publisher's token.
abbrev pub grants : VideoGrant
grants = record {
  room_join = true;
  room = "testroom";
  can_publish = true;
  can_subscribe = false;
  can_publish_data = true;
  can_update_own_metadata = true;
}

module _ (p : Platform) (lk : Livekit p) where
  -- connectToLivekit: a test request with the host and the keys
  unfoldable pub connect_to_livekit : Action (Session p lk) (Unit {0})
  unfolding make_client room_call
  connect_to_livekit = do make_client livekit_endpoint livekit_key livekit_secret; call_list_rooms

  -- createLivekitAccessToken
  unfoldable pub create_livekit_access_token : String → VideoGrant → Action (Session p lk) String
  create_livekit_access_token identy gs = lift (
      lk.to_jwt (record {
        key = livekit_key;
        secret = livekit_secret;
        grant = gs;
        identity = identy;
        valid_hours = 500;
      }))

  -- setMetadata
  unfoldable pub set_metadata : Action (Session p lk) (Unit {0})
  set_metadata = do
    payload ← lift (lk.marshal_metadata (("randommetadata", 43) ∷ []))
    room ← the_room
    set_room_metadata room payload

  -- publishTrack, with the size of the red triangle's bounds
  unfoldable pub publish_track : ℕ → ℕ → Action (Session p lk) (Unit {0})
  publish_track bwidth bheight = do
    track ← lift (lk.new_local_track "video/H264")
    room ← the_room
    publish room track bwidth bheight

  -- run until the room is joined
  unfoldable pub enter : Action (Session p lk) lk.Room
  enter = do
    in_world (init_con p "publisher")
    connect_to_livekit
    token ← create_livekit_access_token "publisher" grants
    make_room
    room ← the_room
    join room livekit_endpoint token relay
    pure room

  -- run in the room, up to the signal that ends it
  unfoldable pub stay : Image → lk.Room → Action (Session p lk) (Unit {0})
  stay triangle room = do set_metadata; publish_track triangle.width triangle.height; leave room

  -- run: the frame that is drawn first gives the track's size
  unfoldable pub run : Image → Action (Session p lk) (Unit {0})
  run triangle = enter >>= stay triangle
