-- ===== src/Livekit/Exchanges.antt =====
-- What a program's calls of the room service exchange, and what the other calls leave of the world.
use ziti_livekit_example.Prelude.{String, ◌≡◌, refl, ap, sym, ◌∙◌, ◌⊎◌, inl, inr, some, arith}
use ziti_livekit_example.Outcome.{Result, ok, err, panic, Action, ◌>>=◌}
use ziti_livekit_example.Outcome.Inversion.{bind-eq-ok, modify-eq-ok}
use ziti_livekit_example.Openziti.Platform.{Platform, World}
use ziti_livekit_example.Openziti.Setup.Wiring.{IsWired}
use ziti_livekit_example.RoomService.Types.{Method, list_rooms, RoomServiceClient}
use ziti_livekit_example.RoomService.Client.{new_room_service_client}
use ziti_livekit_example.RoomService.Call.Bodies.{OnlyNet, service_call-OnlyNet}
use ziti_livekit_example.RoomService.Call.Exchanges.{Exchanged, service_call-eq-ok}
use ziti_livekit_example.Livekit.{
  Livekit, Call, Session, in_world, sdk_call, make_room, the_room, make_client, room_call,
  called_on, answered, background,
}

answered-eq-ok :
    {p : Platform} (lk : Livekit p) (r : Result (lk.twirp.TwirpError ⊎ lk.Message)) {u : Unit {0}}
    → answered lk r ≡ ok u
    → (m : lk.Message) × (r ≡ ok (inr m))
answered-eq-ok lk (ok (inl e)) h = cc
answered-eq-ok lk (ok (inr m)) h = (m, refl)
answered-eq-ok lk (err e) h = cc
answered-eq-ok lk (panic t) h = cc

pub IsWired-OnlyNet : {p : Platform} (w w' : World p) → OnlyNet w w' → IsWired w → IsWired w'
IsWired-OnlyNet w w' e h = rw e (record {
  context = h.context;
  is_context = h.is_context;
  collection = h.collection;
  dialer = h.dialer;
  number = h.number;
  is_transport = h.is_transport;
  client = h.client;
  websocket = h.websocket;
})

module _ {p : Platform} {lk : Livekit p} where
  -- A call of a client: its exchange in the world before, and what it leaves.
  pub record Called (client : RoomServiceClient) (method : Method) (name : String)
      (marshalled : Result String) (unmarshal : String → Result lk.Message) (s t : Session p lk)
      : Type 0 where
    pub message : lk.Message
    pub exchanged : Exchanged lk.twirp client method name marshalled unmarshal s.world message
    pub only_net : OnlyNet s.world t.world
    pub same_client : t.room_client ≡ s.room_client

  called_on-Called :
      (client : RoomServiceClient) (c : Call) (method : Method) (name : String)
      (marshalled : Result String) (unmarshal : String → Result lk.Message) (s : Session p lk)
      {u : Unit {0}} {t : Session p lk}
      → called_on (some client) c method name marshalled unmarshal s ≡ (ok u, t)
      → Called client method name marshalled unmarshal s t
  called_on-Called client c method name marshalled unmarshal s {u} {t} h =
      let (m, is_answer) = answered-eq-ok lk _ (ap (λ x. x.0) h) in
      let world = ap (λ x. x.1.world) h in
      record {
        message = m;
        exchanged =
            service_call-eq-ok lk.twirp client method name background marshalled unmarshal s.world
              (λ i. (is_answer i, world i));
        only_net = rw (sym world) (
            service_call-OnlyNet lk.twirp client method name background marshalled unmarshal
              s.world);
        same_client = ap (λ x. x.1.room_client) (sym h);
      }

  -- A call of `roomClient` that succeeds.
  pub room_call-Called :
      (client : RoomServiceClient) (c : Call) (method : Method) (name : String)
      (marshalled : Result String) (unmarshal : String → Result lk.Message) (s : Session p lk)
      {u : Unit {0}} {t : Session p lk}
      → s.room_client ≡ some client
      → room_call c method name marshalled unmarshal s ≡ (ok u, t)
      → Called client method name marshalled unmarshal s t
  unfolding room_call
  room_call-Called client c method name marshalled unmarshal s e h =
      called_on-Called client c method name marshalled unmarshal s
        (ap (λ o. called_on o c method name marshalled unmarshal s) (sym e) ∙ h)

  -- What a program has once it made its client and listed the rooms with it, from the world that it
  -- was in.
  pub record Listed (endpoint key secret : String) (w : World p) (t : Session p lk) : Type 0 where
    pub message : lk.Message
    pub exchanged :
        Exchanged lk.twirp
          (new_room_service_client lk.twirp endpoint key secret)
          list_rooms
          ""
          lk.marshal_list_rooms
          lk.unmarshal_list_rooms
          w
          message
    pub only_net : OnlyNet w t.world
    pub is_client : t.room_client ≡ some (new_room_service_client lk.twirp endpoint key secret)

  pub connected-Listed :
      (endpoint key secret : String) (c : Call) (s : Session p lk) {u : Unit {0}} {t : Session p lk}
      → (make_client endpoint key secret >>= λ v.
            room_call c list_rooms "" lk.marshal_list_rooms lk.unmarshal_list_rooms)
          s
        ≡ (ok u, t)
      → Listed endpoint key secret s.world t
  unfolding make_client
  connected-Listed endpoint key secret c s h =
      let (v, a, h1, k1) = bind-eq-ok _ _ s h in
      let made = modify-eq-ok _ h1 in
      let called =
        room_call-Called (new_room_service_client lk.twirp endpoint key secret) c list_rooms ""
          lk.marshal_list_rooms lk.unmarshal_list_rooms _ refl
          (ap (room_call c list_rooms "" lk.marshal_list_rooms lk.unmarshal_list_rooms) made
            ∙ k1) in
      record {
        message = called.message;
        exchanged = called.exchanged;
        only_net = called.only_net;
        is_client = called.same_client;
      }

  pub world-sdk_call :
      {A : Type 0} (c : Call) (f : lk.Server → Result A × lk.Server) (s : Session p lk) {a : A}
      {t : Session p lk}
      → sdk_call c f s ≡ (ok a, t)
      → t.world ≡ s.world
  unfolding sdk_call
  world-sdk_call c f s h = ground arith

  pub world-make_room :
      (s : Session p lk) {u : Unit {0}} {t : Session p lk}
      → make_room s ≡ (ok u, t)
      → t.world ≡ s.world
  unfolding make_room
  world-make_room s h = ground arith

  pub world-the_room :
      (s : Session p lk) {r : lk.Room} {t : Session p lk}
      → the_room s ≡ (ok r, t)
      → t.world ≡ s.world
  unfolding the_room
  world-the_room s h = ground arith

  pub world-in_world :
      {A : Type 0} (m : Action (World p) A) (s : Session p lk) {a : A} {t : Session p lk}
      → in_world m s ≡ (ok a, t)
      → m s.world ≡ (ok a, t.world)
  unfolding in_world
  world-in_world m s h = λ i. ((h i).0, (h i).1.world)
