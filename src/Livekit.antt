-- ===== src/Livekit.antt =====
-- What the two programs use of the LiveKit server SDK, the state of a program that has run some of
-- its calls, and the calls themselves, each recorded as it succeeds.
pub mod Calls
pub mod Exchanges
pub mod Rounds
pub mod Servers
use ziti_livekit_example.Prelude.{
  ℕ, ◌+◌, ◌-◌, String, Bool, Option, none, some, List, [], ◌∷◌, ◌⊎◌, inl, inr,
}
use ziti_livekit_example.Outcome.{Error, Result, ok, err, panic, Action, modify}
use ziti_livekit_example.Openziti.Platform.{Platform, World}
use ziti_livekit_example.RoomService.Types.{
  list_rooms, create_room, Method, RoomServiceClient, Ctx, Twirp,
}
use ziti_livekit_example.RoomService.Client.{new_room_service_client, service_call}

-- auth.VideoGrant, with the options that the programs set
pub record VideoGrant : Type 0 where
  pub room_join : Bool
  pub room : String
  pub can_publish : Bool
  pub can_subscribe : Bool
  pub can_publish_data : Bool
  pub can_update_own_metadata : Bool

-- auth.AccessToken before it is signed
pub record AccessToken : Type 0 where
  pub key : String
  pub secret : String
  pub grant : VideoGrant
  pub identity : String
  pub valid_hours : ℕ

-- livekit.CreateRoomRequest; the timeout is in seconds
pub record CreateRoomRequest : Type 0 where
  pub name : String
  pub empty_timeout : ℕ
  pub max_participants : ℕ

-- webrtc.ICETransportPolicy
pub data IceTransportPolicy : Type 0 where
  all relay : IceTransportPolicy

pub record Livekit (p : Platform) : Type 1 where
  pub Server : Type 0
  pub Room : Type 0
  pub Track : Type 0
  -- what the room service's client takes, the messages of its calls, and its errors as Go's
  pub twirp : Twirp p
  pub twirp_error : twirp.TwirpError → Error
  pub Message : Type 0
  pub marshal_list_rooms : Result String
  pub unmarshal_list_rooms : String → Result Message
  pub marshal_create_room : CreateRoomRequest → Result String
  pub unmarshal_create_room : String → Result Message
  pub to_jwt : AccessToken → Result String
  pub new_room : Server → Room × Server
  pub join_with_token :
      Room → String → String → IceTransportPolicy → Server → Result (Unit {0}) × Server
  pub marshal_metadata : List (String × ℕ) → Result String
  pub set_metadata : Room → String → Server → Server
  pub new_local_track : String → Result Track
  pub publish_track : Room → Track → ℕ → ℕ → Server → Result (Unit {0}) × Server
  pub disconnect : Room → Server → Server

-- The calls of the SDK that a program has made with success.
pub data Call : Type 0 where
  listed : Call
  room_created : CreateRoomRequest → Call
  joined : String → String → IceTransportPolicy → Call
  metadata_set : String → Call
  published : ℕ → ℕ → Call
  disconnected : Call

-- `roomClient` is a variable of both programs.
pub record Session (p : Platform) (lk : Livekit p) : Type 0 where
  pub world : World p
  pub server : lk.Server
  pub room_client : Option RoomServiceClient
  pub room : Option lk.Room
  pub calls : List Call

-- The rooms that were joined and not left.
unfoldable pub rooms_open : List Call → ℕ
rooms_open [] = 0
rooms_open (joined endpoint token policy ∷ cs) = rooms_open cs + 1
rooms_open (disconnected ∷ cs) = rooms_open cs - 1
rooms_open (_ ∷ cs) = rooms_open cs

-- A call is recorded if it succeeded.
abbrev pub recorded : {A : Type 0} → Result A → Call → List Call → List Call
recorded (ok a) c cs = c ∷ cs
recorded (err e) c cs = cs
recorded (panic t) c cs = cs

-- context.Background()
abbrev pub background : {p : Platform} → Ctx p
background = record { headers = none; done = λ n. none }

-- A call's error, or that of its answer, and nothing of the answer itself
abbrev pub answered :
    {p : Platform} (lk : Livekit p) → Result (lk.twirp.TwirpError ⊎ lk.Message) → Result (Unit {0})
answered lk (ok (inl e)) = err (lk.twirp_error e)
answered lk (ok (inr m)) = ok tt
answered lk (err e) = err e
answered lk (panic t) = panic t

module _ {p : Platform} {lk : Livekit p} where
  -- A function of lib/openziti, called by a program.
  unfoldable pub in_world : {A : Type 0} → Action (World p) A → Action (Session p lk) A
  in_world m s = let (r, w) = m s.world in (r, record s { world = w })

  -- A call of the SDK that may fail.
  unfoldable pub sdk_call :
      {A : Type 0} → Call → (lk.Server → Result A × lk.Server) → Action (Session p lk) A
  sdk_call c f s =
      let (r, server') = f s.server in
      (r, record s { server = server'; calls = recorded r c s.calls })

  -- lksdk.NewRoomServiceClient, assigned to `roomClient`
  unfoldable pub make_client : String → String → String → Action (Session p lk) (Unit {0})
  unfolding new_room_service_client
  make_client endpoint key secret =
      modify (λ s. record s {
        room_client = some (new_room_service_client lk.twirp endpoint key secret);
      })

  abbrev pub called_on :
      Option RoomServiceClient
      → Call
      → Method
      → String
      → Result String
      → (String → Result lk.Message)
      → Action (Session p lk) (Unit {0})
  called_on none c method name marshalled unmarshal s =
      (panic "invalid memory address or nil pointer dereference", s)
  called_on (some client) c method name marshalled unmarshal s =
      let (r, w) =
        service_call lk.twirp client method name background marshalled unmarshal s.world in
      (answered lk r, record s { world = w; calls = recorded (answered lk r) c s.calls })

  -- `_, err = roomClient.M(context.Background(), req)`, of a request that names a room or none
  unfoldable pub room_call :
      Call
      → Method
      → String
      → Result String
      → (String → Result lk.Message)
      → Action (Session p lk) (Unit {0})
  unfolding service_call
  room_call c method name marshalled unmarshal s =
      called_on s.room_client c method name marshalled unmarshal s

  -- lksdk.NewRoom, assigned to `room`
  unfoldable pub make_room : Action (Session p lk) (Unit {0})
  make_room s =
      let (r, server') = lk.new_room s.server in
      (ok tt, record s { server = server'; room = some r })

  -- The variable `room`; a nil room panics where it is used.
  unfoldable pub the_room : Action (Session p lk) lk.Room
  the_room s = (
    elim s.room [
      | some r ↦ ok r
      | none ↦ panic "invalid memory address or nil pointer dereference"
    ],
    s,
  )

  -- A call of the SDK that returns nothing.
  unfoldable pub sdk_do : Call → (lk.Server → lk.Server) → Action (Session p lk) (Unit {0})
  sdk_do c f s = (ok tt, record s { server = f s.server; calls = c ∷ s.calls })

  -- The calls as the programs make them, each recorded by what it was given: ListRooms, CreateRoom,
  -- Room.JoinWithToken, LocalParticipant.SetMetadata, LocalParticipant.PublishTrack, Room.Disconnect.
  abbrev pub call_list_rooms : Action (Session p lk) (Unit {0})
  call_list_rooms = room_call listed list_rooms "" lk.marshal_list_rooms lk.unmarshal_list_rooms

  abbrev pub call_create_room : CreateRoomRequest → Action (Session p lk) (Unit {0})
  call_create_room req =
      room_call (room_created req) create_room req.name (lk.marshal_create_room req)
        lk.unmarshal_create_room

  abbrev pub join :
      lk.Room → String → String → IceTransportPolicy → Action (Session p lk) (Unit {0})
  join room endpoint token policy =
      sdk_call (joined endpoint token policy) (lk.join_with_token room endpoint token policy)

  abbrev pub set_room_metadata : lk.Room → String → Action (Session p lk) (Unit {0})
  set_room_metadata room payload = sdk_do (metadata_set payload) (lk.set_metadata room payload)

  abbrev pub publish : lk.Room → lk.Track → ℕ → ℕ → Action (Session p lk) (Unit {0})
  publish room track w h = sdk_call (published w h) (lk.publish_track room track w h)

  abbrev pub leave : lk.Room → Action (Session p lk) (Unit {0})
  leave room = sdk_do disconnected (lk.disconnect room)
