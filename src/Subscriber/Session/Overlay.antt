-- ===== src/Subscriber/Session/Overlay.antt =====
-- The room service calls of a run of the subscriber, through lib/openziti's client.

use ziti_livekit_example.Prelude.{◌≡◌}
use ziti_livekit_example.Outcome.{ok}
use ziti_livekit_example.Outcome.Inversion.{bind-eq-ok}
use ziti_livekit_example.Openziti.Platform.{Platform, World}
use ziti_livekit_example.Openziti.Setup.{init_con}
use ziti_livekit_example.Openziti.Setup.Wiring.{IsWired, init_con-IsWired}
use ziti_livekit_example.RoomService.Types.{create_room}
use ziti_livekit_example.RoomService.Client.{new_room_service_client}
use ziti_livekit_example.Livekit.{Livekit, Session}
use ziti_livekit_example.Livekit.Exchanges.{
  Listed, Called, connected-Listed, room_call-Called, IsWired-OnlyNet, world-in_world,
}
use ziti_livekit_example.Subscriber.Session.{
  livekit_endpoint, livekit_key, livekit_secret, room_config, connect_to_livekit,
  create_livekit_access_token, run,
}

-- What a run of the subscriber has done before it joins the room: in the world that InitCon left, it listed
-- the rooms, and with the same client, in the world that this left, it created the room.
pub record Prepared {p : Platform} {lk : Livekit p} (s : Session p lk) : Type 0 where
  pub world : World p
  pub initialised : init_con p "subscriber" s.world ≡ (ok tt, world)
  pub after : Session p lk
  pub listing : Listed livekit_endpoint livekit_key livekit_secret world after
  pub wired : IsWired after.world
  pub created : Session p lk
  pub creation :
      Called
        (new_room_service_client lk.twirp livekit_endpoint livekit_key livekit_secret)
        create_room
        "testroom"
        (lk.marshal_create_room room_config)
        lk.unmarshal_create_room
        after
        created

-- A run of the subscriber that comes to its end has listed the rooms and then created its room, each with a
-- message that was posted, with a token of the right for it, to the method's URL at its endpoint, through
-- the client of lib/openziti that a successful InitCon of its identity made, and answered.
pub run-Prepared :
    (p : Platform) (lk : Livekit p) (s : Session p lk) {u : Unit {0}} {t : Session p lk}
    → run p lk s ≡ (ok u, t)
    → Prepared s
unfolding run connect_to_livekit create_livekit_access_token
run-Prepared p lk s h =
    let (u1, a, h1, k1) = bind-eq-ok _ _ s h in
    let (u2, b, h2, k2) = bind-eq-ok _ _ a k1 in
    let (u3, c, h3, k3) = bind-eq-ok _ _ b k2 in
    let initialised = world-in_world (init_con p "subscriber") s h1 in
    let listing = connected-Listed _ _ _ _ a h2 in
    record {
      world = a.world;
      initialised = initialised;
      after = b;
      listing = listing;
      wired =
          IsWired-OnlyNet a.world b.world listing.only_net
            (init_con-IsWired p "subscriber" s.world initialised);
      created = c;
      creation = room_call-Called _ _ _ _ _ _ b listing.is_client h3;
    }
