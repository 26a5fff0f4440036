-- ===== src/Subscriber/Session/Rooms.antt =====
-- The calls of a run of the subscriber.
use ziti_livekit_example.Prelude.{String, ◌≡◌, ap, ◌∙◌, List, ◌∷◌}
use ziti_livekit_example.Outcome.{ok}
use ziti_livekit_example.Outcome.Inversion.{bind-eq-ok, lift_bind-eq-ok}
use ziti_livekit_example.Openziti.Platform.{Platform}
use ziti_livekit_example.Livekit.{
  AccessToken, Livekit, Call, listed, room_created, joined, disconnected, relay, Session,
}
use ziti_livekit_example.Livekit.Calls.{
  calls-in_world, calls-sdk_call, calls-make_room, calls-the_room, calls-sdk_do, calls-make_client,
  calls-room_call,
}
use ziti_livekit_example.Livekit.Servers.{
  server-in_world, server-make_client, server-room_call, IsInside, join-IsInside, IsInside-from,
  sdk_do-eq-ok,
}
use ziti_livekit_example.Subscriber.Session.{
  livekit_endpoint, livekit_key, livekit_secret, grants, room_config, connect_to_livekit,
  create_livekit_access_token, run,
}

-- The token that the subscriber asks for.
abbrev subscriber_token : AccessToken
subscriber_token = record {
  key = livekit_key;
  secret = livekit_secret;
  grant = grants;
  identity = "subscriber";
  valid_hours = 500;
}

calls-connect_to_livekit :
    (p : Platform) (lk : Livekit p) (s : Session p lk) {u : Unit {0}} {t : Session p lk}
    → connect_to_livekit p lk s ≡ (ok u, t)
    → t.calls ≡ listed ∷ s.calls
unfolding connect_to_livekit
calls-connect_to_livekit p lk s h =
    let (u1, a, h1, k1) = bind-eq-ok _ _ s h in
    calls-room_call _ _ _ _ _ a k1
    ∙ ap (λ (l : List Call). listed ∷ l) (calls-make_client _ _ _ s h1)

server-connect_to_livekit :
    (p : Platform) (lk : Livekit p) (s : Session p lk) {u : Unit {0}} {t : Session p lk}
    → connect_to_livekit p lk s ≡ (ok u, t)
    → t.server ≡ s.server
unfolding connect_to_livekit
server-connect_to_livekit p lk s h =
    let (u1, a, h1, k1) = bind-eq-ok _ _ s h in
    server-room_call _ _ _ _ _ a k1 ∙ server-make_client _ _ _ s h1

-- What a run that comes to its end has done to the server and to the calls of its session.
pub record Performed {p : Platform} (lk : Livekit p) (s t : Session p lk) : Type 0 where
  pub token : String
  pub signed : lk.to_jwt subscriber_token ≡ ok token
  pub room : lk.Room
  pub inside : Session p lk
  pub enters : IsInside livekit_endpoint token relay s room inside
  pub leaves : t.server ≡ lk.disconnect room inside.server
  pub calls :
      t.calls
      ≡ disconnected
        ∷ joined livekit_endpoint token relay
        ∷ room_created room_config
        ∷ listed
        ∷ s.calls

-- A run of the subscriber that comes to its end has, in this order and nothing else: listed the
-- rooms, created the room, made a room and joined it at the endpoint with a token that was signed
-- for "subscriber" and its grants, over relayed connections only, and left it. The server at the
-- end is the one that NewRoom, JoinWithToken and Disconnect, with these arguments, have made of the
-- server at the start.
pub calls-subscriber_run :
    (p : Platform) (lk : Livekit p) (s : Session p lk) {u : Unit {0}} {t : Session p lk}
    → run p lk s ≡ (ok u, t)
    → Performed lk s t
unfolding run create_livekit_access_token
calls-subscriber_run p lk s h =
    let (u1, a, h1, k1) = bind-eq-ok _ _ s h in
    let (u2, b, h2, k2) = bind-eq-ok _ _ a k1 in
    let (u3, c, h3, k3) = bind-eq-ok _ _ b k2 in
    let (token, signed, k4) = lift_bind-eq-ok _ _ c k3 in
    let (u5, d, h5, k5) = bind-eq-ok _ _ c k4 in
    let (room, e, h6, k6) = bind-eq-ok _ _ d k5 in
    let (u7, f, h7, k7) = bind-eq-ok _ _ e k6 in
    let listing =
      calls-connect_to_livekit p lk a h2
      ∙ ap (λ (l : List Call). listed ∷ l) (calls-in_world _ s h1) in
    let creating =
      calls-room_call _ _ _ _ _ b h3
      ∙ ap (λ (l : List Call). room_created room_config ∷ l) listing in
    let waiting = calls-the_room d h6 ∙ calls-make_room c h5 ∙ creating in
    let joining =
      calls-sdk_call _ _ e h7
      ∙ ap (λ (l : List Call). joined livekit_endpoint token relay ∷ l) waiting in
    let untouched : c.server ≡ s.server =
      server-room_call _ _ _ _ _ b h3
      ∙ server-connect_to_livekit p lk a h2
      ∙ server-in_world _ s h1 in
    record {
      token = token;
      signed = signed;
      room = room;
      inside = f;
      enters = IsInside-from s c untouched (join-IsInside livekit_endpoint token relay c h5 h6 h7);
      leaves = (sdk_do-eq-ok _ _ f k7).0;
      calls = calls-sdk_do _ _ f k7 ∙ ap (λ (l : List Call). disconnected ∷ l) joining;
    }
