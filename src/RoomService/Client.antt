-- ===== src/RoomService/Client.antt =====
-- RoomServiceClient: each method signs a token with its grant and makes one Twirp call.
use ziti_livekit_example.Prelude.{String, ◌==◌, ◌<>◌, none, some, [], ◌∷◌, if◌then◌else◌}
use ziti_livekit_example.Outcome.{Result, ok, err, panic, Action, lift, ◌>>=◌}
use ziti_livekit_example.Openziti.Platform.{Platform, World}
use ziti_livekit_example.SignalClient.Connect.{to_http_url}
use ziti_livekit_example.SignalClient.Overlay.{new_header_with_token}
use ziti_livekit_example.RoomService.Types.{
  Method, create_room, list_rooms, delete_room, list_participants, get_participant,
  remove_participant, mute_published_track, update_participant, update_subscriptions, send_data,
  update_room_metadata, Grant, room_create, room_list, room_admin, RoomServiceClient, Ctx, Twirp,
}
use ziti_livekit_example.RoomService.Call.{Answer, do_protobuf_request}

-- The last part of a method's URL.
unfoldable pub method_name : Method → String
method_name create_room = "CreateRoom"
method_name list_rooms = "ListRooms"
method_name delete_room = "DeleteRoom"
method_name list_participants = "ListParticipants"
method_name get_participant = "GetParticipant"
method_name remove_participant = "RemoveParticipant"
method_name mute_published_track = "MutePublishedTrack"
method_name update_participant = "UpdateParticipant"
method_name update_subscriptions = "UpdateSubscriptions"
method_name send_data = "SendData"
method_name update_room_metadata = "UpdateRoomMetadata"

-- The grant that a method is called with, for the room that its request names.
unfoldable pub method_grant : Method → String → Grant
method_grant create_room room = room_create
method_grant list_rooms room = room_list
method_grant delete_room room = room_create
method_grant _ room = room_admin room

module _ {p : Platform} (tw : Twirp p) where
  -- baseServicePath
  unfoldable pub base_service_path : String → String → String → String
  base_service_path prefix pkg service =
      let full = (if pkg == "" then service else pkg <> ("." <> service)) in
      tw.path_join ("/" ∷ prefix ∷ full ∷ []) <> "/"

  -- sanitizeBaseURL
  unfoldable pub sanitize_base_url : String → String
  sanitize_base_url base_url = elim (tw.parse_url base_url) [
    | none ↦ base_url
    | some u ↦ tw.url_text (if u.scheme == "" then record u { scheme = "http" } else u)
  ]

  -- NewRoomServiceClient, without options
  unfoldable pub new_room_service_client : String → String → String → RoomServiceClient
  unfolding to_http_url base_service_path sanitize_base_url
  new_room_service_client url api_key secret_key = record {
    api_key = api_key;
    api_secret = secret_key;
    service_url =
        sanitize_base_url (to_http_url url) <> base_service_path "/twirp" "livekit" "RoomService";
  }

  abbrev pub authorised : Ctx p → Result String → Result (Ctx p)
  authorised ctx (ok token) = ok (record ctx { headers = some (new_header_with_token token) })
  authorised ctx (err e) = err e
  authorised ctx (panic t) = panic t

  -- withAuth
  unfoldable pub with_auth : RoomServiceClient → Grant → Ctx p → Result (Ctx p)
  unfolding new_header_with_token
  with_auth c grant ctx = authorised ctx (tw.to_jwt c.api_key c.api_secret grant)

  -- A method of RoomServiceClient, and the one of the Twirp client that it calls.
  unfoldable pub service_call :
      {A : Type 0}
      → RoomServiceClient
      → Method
      → String
      → Ctx p
      → Result String
      → (String → Result A)
      → Action (World p) (Answer tw A)
  unfolding method_name method_grant with_auth do_protobuf_request
  service_call c method room ctx marshalled unmarshal = do
    ctx' ← lift (with_auth c (method_grant method room) ctx)
    do_protobuf_request tw ctx' (c.service_url <> method_name method) marshalled unmarshal
