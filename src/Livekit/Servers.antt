-- ===== src/Livekit/Servers.antt =====
-- What a successful action does to the server, and to the variable `room`, of a session.
use mathlib.Core.Path.{subst}
use ziti_livekit_example.Prelude.{ℕ, String, ◌≡◌, ap, sym, ◌∙◌, Option, none, some, arith}
use ziti_livekit_example.Outcome.{Result, ok, Action}
use ziti_livekit_example.Outcome.Inversion.{modify-eq-ok}
use ziti_livekit_example.Openziti.Platform.{Platform, World}
use ziti_livekit_example.RoomService.Types.{Method, RoomServiceClient}
use ziti_livekit_example.Livekit.{
  Livekit, Call, Session, in_world, sdk_call, make_room, the_room, sdk_do, make_client, room_call,
  called_on, IceTransportPolicy, join, set_room_metadata, publish,
}

module _ {p : Platform} {lk : Livekit p} where
  pub server-in_world :
      {A : Type 0} (m : Action (World p) A) (s : Session p lk) {a : A} {t : Session p lk}
      → in_world m s ≡ (ok a, t)
      → t.server ≡ s.server
  unfolding in_world
  server-in_world m s h = ground arith

  pub server-make_client :
      (endpoint key secret : String) (s : Session p lk) {u : Unit {0}} {t : Session p lk}
      → make_client endpoint key secret s ≡ (ok u, t)
      → t.server ≡ s.server
  unfolding make_client
  server-make_client endpoint key secret s h =
      ap (λ (x : Session p lk). x.server) (sym (modify-eq-ok _ h))

  server-called_on :
      (o : Option RoomServiceClient) (c : Call) (method : Method) (name : String)
      (marshalled : Result String) (unmarshal : String → Result lk.Message) (s : Session p lk)
      {u : Unit {0}} {t : Session p lk}
      → called_on o c method name marshalled unmarshal s ≡ (ok u, t)
      → t.server ≡ s.server
  server-called_on none c method name marshalled unmarshal s h = cc
  server-called_on (some client) c method name marshalled unmarshal s h =
      ap (λ x. x.1.server) (sym h)

  pub server-room_call :
      (c : Call) (method : Method) (name : String) (marshalled : Result String)
      (unmarshal : String → Result lk.Message) (s : Session p lk) {u : Unit {0}} {t : Session p lk}
      → room_call c method name marshalled unmarshal s ≡ (ok u, t)
      → t.server ≡ s.server
  unfolding room_call
  server-room_call c method name marshalled unmarshal s h =
      server-called_on s.room_client c method name marshalled unmarshal s h

  -- NewRoom gives the room that the variable then holds.
  pub make_room-eq-ok :
      (s : Session p lk) {u : Unit {0}} {t : Session p lk}
      → make_room s ≡ (ok u, t)
      → (t.room ≡ some (lk.new_room s.server).0) × (t.server ≡ (lk.new_room s.server).1)
  unfolding make_room
  make_room-eq-ok s h = ground arith

  pub the_room-eq-ok :
      (s : Session p lk) {r : lk.Room} {t : Session p lk}
      → the_room s ≡ (ok r, t)
      → (s.room ≡ some r) × (s ≡ t)
  unfolding the_room
  the_room-eq-ok s h = ground arith

  pub sdk_call-eq-ok :
      {A : Type 0} (c : Call) (f : lk.Server → Result A × lk.Server) (s : Session p lk) {a : A}
      {t : Session p lk}
      → sdk_call c f s ≡ (ok a, t)
      → (f s.server ≡ (ok a, t.server)) × (t.room ≡ s.room)
  unfolding sdk_call
  sdk_call-eq-ok c f s h = ground arith

  pub sdk_do-eq-ok :
      (c : Call) (f : lk.Server → lk.Server) (s : Session p lk) {u : Unit {0}} {t : Session p lk}
      → sdk_do c f s ≡ (ok u, t)
      → (t.server ≡ f s.server) × (t.room ≡ s.room)
  unfolding sdk_do
  sdk_do-eq-ok c f s h = ground arith

  -- A room was made on the server and joined with a token, and the variable holds it.
  pub record IsInside (endpoint token : String) (policy : IceTransportPolicy) (s : Session p lk)
      (room : lk.Room) (t : Session p lk) : Type 0 where
    pub prepared : lk.Server
    pub made : lk.new_room s.server ≡ (room, prepared)
    pub joins : lk.join_with_token room endpoint token policy prepared ≡ (ok tt, t.server)
    pub held : t.room ≡ some room

  -- NewRoom, the use of the room, and JoinWithToken.
  pub join-IsInside :
      (endpoint token : String) (policy : IceTransportPolicy) (s : Session p lk) {u v : Unit {0}}
      {room : lk.Room} {a b t : Session p lk}
      → make_room s ≡ (ok u, a)
      → the_room a ≡ (ok room, b)
      → join room endpoint token policy b ≡ (ok v, t)
      → IsInside endpoint token policy s room t
  join-IsInside endpoint token policy s {room = room} {a = a} {b = b} {t = t} h1 h2 h3 =
      let (given, server) = make_room-eq-ok s h1 in
      let (held, same) = the_room-eq-ok a h2 in
      let (joins, kept) = sdk_call-eq-ok _ _ b h3 in
      let is_room : (lk.new_room s.server).0 ≡ room = ground arith in
      let prepared : b.server ≡ (lk.new_room s.server).1 =
        ap (λ (x : Session p lk). x.server) (sym same) ∙ server in
      record {
        prepared = (lk.new_room s.server).1;
        made = λ i. (is_room i, (lk.new_room s.server).1);
        joins =
            subst (λ x. lk.join_with_token room endpoint token policy x ≡ (ok tt, t.server))
              prepared joins;
        held = kept ∙ ap (λ (x : Session p lk). x.room) (sym same) ∙ held;
      }

  pub IsInside-from :
      {endpoint token : String} {policy : IceTransportPolicy} (s s' : Session p lk) {room : lk.Room}
      {t : Session p lk}
      → s'.server ≡ s.server
      → IsInside endpoint token policy s' room t
      → IsInside endpoint token policy s room t
  IsInside-from s s' {room = room} e h = record {
    prepared = h.prepared;
    made = ap lk.new_room (sym e) ∙ h.made;
    joins = h.joins;
    held = h.held;
  }

  room_is : (s : Session p lk) {room r : lk.Room} → s.room ≡ some room → s.room ≡ some r → r ≡ room
  room_is s h k = ground arith

  -- SetMetadata and PublishTrack on the room that the variable holds.
  pub set_room_metadata-eq-ok :
      (payload : String) (s : Session p lk) {room r : lk.Room} {u : Unit {0}} {a t : Session p lk}
      → s.room ≡ some room
      → the_room s ≡ (ok r, a)
      → set_room_metadata r payload a ≡ (ok u, t)
      → (t.server ≡ lk.set_metadata room payload s.server) × (t.room ≡ some room)
  set_room_metadata-eq-ok payload s {r = r} h k l =
      let (held, same) = the_room-eq-ok s k in
      let (done, kept) = sdk_do-eq-ok _ _ _ l in
      let is_room = room_is s h held in
      (
        done
            ∙ ap (λ (x : Session p lk). lk.set_metadata r payload x.server) (sym same)
            ∙ ap (λ x. lk.set_metadata x payload s.server) is_room,
        kept ∙ ap (λ (x : Session p lk). x.room) (sym same) ∙ h,
      )

  pub publish-eq-ok :
      (track : lk.Track) (w h : ℕ) (s : Session p lk) {room r : lk.Room} {u : Unit {0}}
      {a t : Session p lk}
      → s.room ≡ some room
      → the_room s ≡ (ok r, a)
      → publish r track w h a ≡ (ok u, t)
      → lk.publish_track room track w h s.server ≡ (ok tt, t.server)
  publish-eq-ok track w h s {r = r} g k l =
      let (held, same) = the_room-eq-ok s k in
      let (done, kept) = sdk_call-eq-ok _ _ _ l in
      let is_room = room_is s g held in
      ap (λ x. lk.publish_track x track w h s.server) (sym is_room)
      ∙ ap (λ (x : Session p lk). lk.publish_track r track w h x.server) same
      ∙ done
