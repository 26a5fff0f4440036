-- ===== src/Subscriber/Session.antt =====
-- run of subscriber/main.go: from the ziti context to a joined room, and until it is left.
pub mod Restarts
pub mod Rooms
pub mod Overlay
use ziti_livekit_example.Prelude.{ℕ, ◌*◌, String, true, false}
use ziti_livekit_example.Outcome.{Result, ok, err, panic, Action, lift, ◌>>=◌, ◌>>◌}
use ziti_livekit_example.Openziti.Platform.{Platform, World}
use ziti_livekit_example.Openziti.Setup.{init_con}
use ziti_livekit_example.RoomService.Types.{list_rooms, create_room}
use ziti_livekit_example.Livekit.{
  VideoGrant, AccessToken, CreateRoomRequest, relay, Livekit, listed, room_created, joined,
  disconnected, Session, in_world, make_client, room_call, make_room, the_room, sdk_call, sdk_do,
  call_list_rooms, call_create_room, join, set_room_metadata, publish, leave,
}

abbrev pub livekit_endpoint : String
livekit_endpoint = "wss://livekit.ziti.example:7880"

abbrev pub livekit_key : String
livekit_key = "GAkDU6thrPsKgxl"

abbrev pub livekit_secret : String
livekit_secret = "tZnZDeJGubl3tHJDPNvqfrQfmEkKcduQo0l23u9HY57"

abbrev pub room_config : CreateRoomRequest
room_config = record { name = "testroom"; empty_timeout = 1222 * 60; max_participants = 20 }

-- The grants of the subscriber's token.
abbrev pub grants : VideoGrant
grants = record {
  room_join = true;
  room = "testroom";
  can_publish = false;
  can_subscribe = true;
  can_publish_data = true;
  can_update_own_metadata = false;
}

module _ (p : Platform) (lk : Livekit p) where
  -- connectToLivekit: a test request with the host and the keys
  unfoldable pub connect_to_livekit : Action (Session p lk) (Unit {0})
  unfolding make_client room_call
  connect_to_livekit = do make_client livekit_endpoint livekit_key livekit_secret; call_list_rooms

  -- createLivekitAccessToken
  unfoldable pub create_livekit_access_token : String → VideoGrant → Action (Session p lk) String
  create_livekit_access_token identy gs = lift (
      lk.to_jwt (record {
        key = livekit_key;
        secret = livekit_secret;
        grant = gs;
        identity = identy;
        valid_hours = 500;
      }))

  -- run, up to the signal that ends it
  unfoldable pub run : Action (Session p lk) (Unit {0})
  run = do
    in_world (init_con p "subscriber")
    connect_to_livekit
    call_create_room room_config
    token ← create_livekit_access_token "subscriber" grants
    make_room
    room ← the_room
    join room livekit_endpoint token relay
    leave room
