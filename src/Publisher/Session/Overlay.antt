-- ===== src/Publisher/Session/Overlay.antt =====
-- The room service call of a run of the publisher, through lib/openziti's client.
use mathlib.Core.Path.{subst}
use ziti_livekit_example.Prelude.{◌≡◌, sym, ◌∙◌, ap}
use ziti_livekit_example.Outcome.{ok}
use ziti_livekit_example.Outcome.Inversion.{bind-eq-ok, lift_bind-eq-ok, pure-eq-ok}
use ziti_livekit_example.Openziti.Platform.{Platform, World}
use ziti_livekit_example.Openziti.Setup.{init_con}
use ziti_livekit_example.Openziti.Setup.Wiring.{IsWired, init_con-IsWired}
use ziti_livekit_example.RoomService.Call.Bodies.{OnlyNet}
use ziti_livekit_example.Livekit.{Livekit, Session}
use ziti_livekit_example.Livekit.Exchanges.{
  Listed, connected-Listed, IsWired-OnlyNet, world-in_world, world-sdk_call, world-make_room,
  world-the_room,
}
use ziti_livekit_example.Publisher.Session.{
  livekit_endpoint, livekit_key, livekit_secret, connect_to_livekit, create_livekit_access_token,
  enter,
}

-- What holds once the publisher has joined its room: the world that InitCon left, in which it listed the
-- rooms, and the world that it joined in.
pub record Entered {p : Platform} {lk : Livekit p} (s t : Session p lk) : Type 0 where
  pub world : World p
  pub initialised : init_con p "publisher" s.world ≡ (ok tt, world)
  pub after : Session p lk
  pub listing : Listed livekit_endpoint livekit_key livekit_secret world after
  pub only_net : OnlyNet world t.world
  pub wired : IsWired t.world

-- A publisher that joins its room has listed the rooms first, with a message that was posted, with a
-- token of the right to list, to the method's URL at its endpoint, through the client of lib/openziti
-- that a successful InitCon of its identity made, and answered; the world that it joins in is
-- wired for that context.
pub enter-Entered :
    (p : Platform) (lk : Livekit p) (s : Session p lk) {room : lk.Room} {t : Session p lk}
    → enter p lk s ≡ (ok room, t)
    → Entered s t
unfolding enter connect_to_livekit create_livekit_access_token
enter-Entered p lk s {room} {t} h =
    let (u1, a, h1, k1) = bind-eq-ok _ _ s h in
    let (u2, b, h2, k2) = bind-eq-ok _ _ a k1 in
    let (token, signed, k3) = lift_bind-eq-ok _ _ b k2 in
    let (u4, c, h4, k4) = bind-eq-ok _ _ b k3 in
    let (r, d, h5, k5) = bind-eq-ok _ _ c k4 in
    let (u6, e, h6, k6) = bind-eq-ok _ _ d k5 in
    let initialised = world-in_world (init_con p "publisher") s h1 in
    let listing = connected-Listed _ _ _ _ a h2 in
    let same : t.world ≡ b.world =
      ap (λ (x : Session p lk). x.world) (sym (pure-eq-ok k6).1)
      ∙ world-sdk_call _ _ d h6
      ∙ world-the_room c h5
      ∙ world-make_room b h4 in
    let only : OnlyNet a.world t.world = subst (OnlyNet a.world) (sym same) listing.only_net in
    record {
      world = a.world;
      initialised = initialised;
      after = b;
      listing = listing;
      only_net = only;
      wired =
          IsWired-OnlyNet a.world t.world only (init_con-IsWired p "publisher" s.world initialised);
    }
