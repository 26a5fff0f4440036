-- ===== src/Publisher/Session/Rooms.antt =====
-- The calls of a run of the publisher, and the rooms that it leaves open.
use mathlib.Core.Path.{subst}
use ziti_livekit_example.Prelude.{
  ℕ, ◌+◌, String, ◌≡◌, refl, ap, sym, some, ◌∙◌, List, [], ◌∷◌, arith,
}
use ziti_livekit_example.Outcome.{Error, ok, err, ◌>>=◌}
use ziti_livekit_example.Outcome.Inversion.{bind-eq-ok, bind_of_ok, lift_bind-eq-ok, pure-eq-ok}
use ziti_livekit_example.Openziti.Platform.{Platform}
use ziti_livekit_example.Openziti.Setup.{init_con}
use ziti_livekit_example.Livekit.{
  AccessToken, Livekit, Call, listed, joined, metadata_set, published, disconnected, relay, Session,
  rooms_open, in_world, sdk_call, sdk_do, the_room,
}
use ziti_livekit_example.Livekit.Calls.{
  calls-in_world, calls-sdk_call, calls-make_room, calls-the_room, calls-sdk_do, calls-make_client,
  calls-room_call,
}
use ziti_livekit_example.Livekit.Servers.{
  server-in_world, server-make_client, server-room_call, IsInside, join-IsInside, IsInside-from,
  set_room_metadata-eq-ok, publish-eq-ok, sdk_do-eq-ok,
}
use ziti_livekit_example.Publisher.Triangle.{Image}
use ziti_livekit_example.Publisher.Session.{
  livekit_endpoint, livekit_key, livekit_secret, grants, connect_to_livekit,
  create_livekit_access_token, set_metadata, publish_track, enter, stay, run,
}

-- The token that the publisher asks for.
abbrev publisher_token : AccessToken
publisher_token = record {
  key = livekit_key;
  secret = livekit_secret;
  grant = grants;
  identity = "publisher";
  valid_hours = 500;
}

module _ (p : Platform) (lk : Livekit p) where
  calls-connect_to_livekit :
      (s : Session p lk) {u : Unit {0}} {t : Session p lk}
      → connect_to_livekit p lk s ≡ (ok u, t)
      → t.calls ≡ listed ∷ s.calls
  unfolding connect_to_livekit
  calls-connect_to_livekit s h =
      let (u1, a, h1, k1) = bind-eq-ok _ _ s h in
      calls-room_call _ _ _ _ _ a k1
      ∙ ap (λ (l : List Call). listed ∷ l) (calls-make_client _ _ _ s h1)

  server-connect_to_livekit :
      (s : Session p lk) {u : Unit {0}} {t : Session p lk}
      → connect_to_livekit p lk s ≡ (ok u, t)
      → t.server ≡ s.server
  unfolding connect_to_livekit
  server-connect_to_livekit s h =
      let (u1, a, h1, k1) = bind-eq-ok _ _ s h in
      server-room_call _ _ _ _ _ a k1 ∙ server-make_client _ _ _ s h1

  -- Nothing before NewRoom has touched the server.
  entered-IsInside :
      (s a b : Session p lk) (token : String) {u1 u2 : Unit {0}} {r room : lk.Room}
      {d t : Session p lk}
      → in_world (init_con p "publisher") s ≡ (ok u1, a)
      → connect_to_livekit p lk a ≡ (ok u2, b)
      → IsInside livekit_endpoint token relay b r d
      → r ≡ room
      → d ≡ t
      → IsInside livekit_endpoint token relay s room t
  entered-IsInside s a b token {r = r} {t = t} h1 h2 inside is_room same =
      let from =
        IsInside-from s b (server-connect_to_livekit a h2 ∙ server-in_world _ s h1) inside in
      subst (λ x. IsInside livekit_endpoint token relay s x t) is_room
        (subst (λ x. IsInside livekit_endpoint token relay s r x) same from)

  enter-eq-ok :
      (s : Session p lk) {room : lk.Room} {t : Session p lk}
      → enter p lk s ≡ (ok room, t)
      → (token : String) × (lk.to_jwt publisher_token ≡ ok token)
        × (t.calls ≡ joined livekit_endpoint token relay ∷ listed ∷ s.calls)
        × IsInside livekit_endpoint token relay s room t
  unfolding enter create_livekit_access_token
  enter-eq-ok s h =
      let (u1, a, h1, k1) = bind-eq-ok _ _ s h in
      let (u2, b, h2, k2) = bind-eq-ok _ _ a k1 in
      let (token, signed, k3) = lift_bind-eq-ok _ _ b k2 in
      let (u4, c, h4, k4) = bind-eq-ok _ _ b k3 in
      let (room, d, h5, k5) = bind-eq-ok _ _ c k4 in
      let (u6, e, h6, k6) = bind-eq-ok _ _ d k5 in
      (
        token,
        signed,
        cc (
          calls-in_world _ s h1,
          calls-connect_to_livekit a h2,
          calls-make_room b h4,
          calls-the_room c h5,
          calls-sdk_call _ _ d h6,
          ap (λ (x : Session p lk). x.calls) (pure-eq-ok k6).1,
        ),
        entered-IsInside s a b token h1 h2 (join-IsInside livekit_endpoint token relay b h4 h5 h6)
            (pure-eq-ok k6).0 (pure-eq-ok k6).1,
      )

  set_metadata-eq-ok :
      (s : Session p lk) {room : lk.Room} {u : Unit {0}} {t : Session p lk}
      → s.room ≡ some room
      → set_metadata p lk s ≡ (ok u, t)
      → (payload : String) × (lk.marshal_metadata (("randommetadata", 43) ∷ []) ≡ ok payload)
        × (t.calls ≡ metadata_set payload ∷ s.calls)
        × (t.server ≡ lk.set_metadata room payload s.server)
        × (t.room ≡ some room)
  unfolding set_metadata
  set_metadata-eq-ok s held h =
      let (payload, marshalled, k1) = lift_bind-eq-ok _ _ s h in
      let (r, a, h2, k2) = bind-eq-ok _ _ s k1 in
      let (server, kept) = set_room_metadata-eq-ok payload s held h2 k2 in
      (payload, marshalled, cc (calls-the_room s h2, calls-sdk_do _ _ a k2), server, kept)

  publish_track-eq-ok :
      (w h : ℕ) (s : Session p lk) {room : lk.Room} {u : Unit {0}} {t : Session p lk}
      → s.room ≡ some room
      → publish_track p lk w h s ≡ (ok u, t)
      → (t.calls ≡ published w h ∷ s.calls)
        × ((track : lk.Track) × (lk.new_local_track "video/H264" ≡ ok track)
            × (lk.publish_track room track w h s.server ≡ (ok tt, t.server)))
  unfolding publish_track
  publish_track-eq-ok w h s held e =
      let (track, made, k1) = lift_bind-eq-ok _ _ s e in
      let (r, a, h2, k2) = bind-eq-ok _ _ s k1 in
      (
        cc (calls-the_room s h2, calls-sdk_call _ _ a k2),
        (track, made, publish-eq-ok track w h s held h2 k2),
      )

  -- The metadata was set and the track published in a room, from one state of the server to another, in
  -- which the room was then left.
  pub record Stayed (triangle : Image) (room : lk.Room) (inside left : lk.Server) (payload : String)
      : Type 0 where
    pub marshalled : lk.marshal_metadata (("randommetadata", 43) ∷ []) ≡ ok payload
    pub track : lk.Track
    pub made : lk.new_local_track "video/H264" ≡ ok track
    pub sending : lk.Server
    pub publishes :
        lk.publish_track room track triangle.width triangle.height
          (lk.set_metadata room payload inside)
        ≡ (ok tt, sending)
    pub leaves : left ≡ lk.disconnect room sending

  stay-eq-ok :
      (triangle : Image) (room : lk.Room) (s : Session p lk) {u : Unit {0}} {t : Session p lk}
      → s.room ≡ some room
      → stay p lk triangle room s ≡ (ok u, t)
      → (payload : String) × Stayed triangle room s.server t.server payload
        × (t.calls
            ≡ disconnected
              ∷ published triangle.width triangle.height
              ∷ metadata_set payload
              ∷ s.calls)
  unfolding stay
  stay-eq-ok triangle room s held h =
      let (u1, a, h1, k1) = bind-eq-ok _ _ s h in
      let (u2, b, h2, k2) = bind-eq-ok _ _ a k1 in
      let (payload, marshalled, set, server, kept) = set_metadata-eq-ok s held h1 in
      let (shown, (track, made, publishes)) =
        publish_track-eq-ok triangle.width triangle.height a kept h2 in
      (
        payload,
        record {
          marshalled = marshalled;
          track = track;
          made = made;
          sending = b.server;
          publishes =
              ap (lk.publish_track room track triangle.width triangle.height) (sym server)
              ∙ publishes;
          leaves = (sdk_do-eq-ok _ _ b k2).0;
        },
        cc (set, shown, calls-sdk_do _ _ b k2),
      )

  -- What a run that comes to its end has done to the server and to the calls of its session.
  pub record Performed (triangle : Image) (s t : Session p lk) : Type 0 where
    pub token : String
    pub payload : String
    pub signed : lk.to_jwt publisher_token ≡ ok token
    pub room : lk.Room
    pub inside : Session p lk
    pub enters : IsInside livekit_endpoint token relay s room inside
    pub stays : Stayed triangle room inside.server t.server payload
    pub calls :
        t.calls
        ≡ disconnected
          ∷ published triangle.width triangle.height
          ∷ metadata_set payload
          ∷ joined livekit_endpoint token relay
          ∷ listed
          ∷ s.calls

  -- A run of the publisher that comes to its end has, in this order and nothing else: listed the rooms,
  -- made a room and joined it at the endpoint with a token that was signed for "publisher" and its
  -- grants, over relayed connections only, set its metadata, published an H.264 track with the
  -- frame's size, and left the room. The server at the end is the one that these calls, with these
  -- arguments, have made of the server at the start.
  pub calls-publisher_run :
      (triangle : Image) (s : Session p lk) {u : Unit {0}} {t : Session p lk}
      → run p lk triangle s ≡ (ok u, t)
      → Performed triangle s t
  unfolding run
  calls-publisher_run triangle s h =
      let (room, a, h1, k1) = bind-eq-ok _ _ s h in
      let (token, signed, entered, inside) = enter-eq-ok s h1 in
      let (payload, stayed, shown) = stay-eq-ok triangle room a inside.held k1 in
      let rest =
        ap
          (λ (l : List Call).
            disconnected ∷ published triangle.width triangle.height ∷ metadata_set payload ∷ l)
          entered in
      record {
        token = token;
        payload = payload;
        signed = signed;
        room = room;
        inside = a;
        enters = inside;
        stays = stayed;
        calls = shown ∙ rest;
      }

  pub set_metadata-rooms :
      (s : Session p lk) → rooms_open (set_metadata p lk s).1.calls ≡ rooms_open s.calls
  unfolding set_metadata the_room sdk_do rooms_open ◌>>=◌
  set_metadata-rooms s = ground arith

  pub publish_track-rooms :
      (w h : ℕ) (s : Session p lk)
      → rooms_open (publish_track p lk w h s).1.calls ≡ rooms_open s.calls
  unfolding publish_track the_room sdk_call rooms_open ◌>>=◌
  publish_track-rooms w h s = ground arith

  stay_failed-rooms :
      (triangle : Image) (room : lk.Room) (s : Session p lk) {e : Error}
      → (stay p lk triangle room s).0 ≡ err e
      → rooms_open (stay p lk triangle room s).1.calls ≡ rooms_open s.calls
  unfolding stay sdk_do ◌>>=◌
  stay_failed-rooms triangle room s h = ground (
    arith,
    set_metadata-rooms s,
    publish_track-rooms triangle.width triangle.height (set_metadata p lk s).1,
  )

  -- A run of the publisher that fails once it has joined the room leaves one room more open than
  -- there were: it returns without disconnecting.
  pub run_failed-rooms :
      (triangle : Image) (s : Session p lk) {room : lk.Room} {a : Session p lk} {e : Error}
      → enter p lk s ≡ (ok room, a)
      → (stay p lk triangle room a).0 ≡ err e
      → ((run p lk triangle s).0 ≡ err e)
        × (rooms_open (run p lk triangle s).1.calls ≡ rooms_open s.calls + 1)
  unfolding run rooms_open
  run_failed-rooms triangle s {room} {a} h k =
      let (token, signed, entered, inside) = enter-eq-ok s h in
      rw (bind_of_ok (enter p lk) (stay p lk triangle) s h)
        (k, stay_failed-rooms triangle room a k ∙ ap rooms_open entered ∙ refl)
