-- ===== src/Livekit/Calls.antt =====
-- What a successful action adds to the calls of a session.
use ziti_livekit_example.Prelude.{
  String, ◌≡◌, refl, ap, sym, ◌∙◌, Option, none, some, List, ◌∷◌, arith,
}
use ziti_livekit_example.Outcome.{Result, ok, err, panic, Action}
use ziti_livekit_example.Outcome.Inversion.{modify-eq-ok}
use ziti_livekit_example.Openziti.Platform.{Platform, World}
use ziti_livekit_example.RoomService.Types.{Method, RoomServiceClient}
use ziti_livekit_example.Livekit.{
  Livekit, Call, Session, in_world, sdk_call, make_room, the_room, sdk_do, make_client, room_call,
  called_on, recorded,
}

calls-recorded :
    (r : Result (Unit {0})) (c : Call) (cs : List Call) {u : Unit {0}}
    → r ≡ ok u
    → recorded r c cs ≡ c ∷ cs
calls-recorded (ok a) c cs h = refl
calls-recorded (err e) c cs h = cc
calls-recorded (panic t) c cs h = cc

module _ {p : Platform} {lk : Livekit p} where
  pub calls-in_world :
      {A : Type 0} (m : Action (World p) A) (s : Session p lk) {a : A} {t : Session p lk}
      → in_world m s ≡ (ok a, t)
      → t.calls ≡ s.calls
  unfolding in_world
  calls-in_world m s h = ground arith

  pub calls-sdk_call :
      {A : Type 0} (c : Call) (f : lk.Server → Result A × lk.Server) (s : Session p lk) {a : A}
      {t : Session p lk}
      → sdk_call c f s ≡ (ok a, t)
      → t.calls ≡ c ∷ s.calls
  unfolding sdk_call
  calls-sdk_call c f s h = ground arith

  pub calls-make_room :
      (s : Session p lk) {u : Unit {0}} {t : Session p lk}
      → make_room s ≡ (ok u, t)
      → t.calls ≡ s.calls
  unfolding make_room
  calls-make_room s h = ground arith

  pub calls-the_room :
      (s : Session p lk) {r : lk.Room} {t : Session p lk}
      → the_room s ≡ (ok r, t)
      → t.calls ≡ s.calls
  unfolding the_room
  calls-the_room s h = ground arith

  pub calls-sdk_do :
      (c : Call) (f : lk.Server → lk.Server) (s : Session p lk) {u : Unit {0}} {t : Session p lk}
      → sdk_do c f s ≡ (ok u, t)
      → t.calls ≡ c ∷ s.calls
  unfolding sdk_do
  calls-sdk_do c f s h = ground arith

  pub calls-make_client :
      (endpoint key secret : String) (s : Session p lk) {u : Unit {0}} {t : Session p lk}
      → make_client endpoint key secret s ≡ (ok u, t)
      → t.calls ≡ s.calls
  unfolding make_client
  calls-make_client endpoint key secret s h =
      ap (λ (x : Session p lk). x.calls) (sym (modify-eq-ok _ h))

  calls-called_on :
      (o : Option RoomServiceClient) (c : Call) (method : Method) (name : String)
      (marshalled : Result String) (unmarshal : String → Result lk.Message) (s : Session p lk)
      {u : Unit {0}} {t : Session p lk}
      → called_on o c method name marshalled unmarshal s ≡ (ok u, t)
      → t.calls ≡ c ∷ s.calls
  calls-called_on none c method name marshalled unmarshal s h = cc
  calls-called_on (some client) c method name marshalled unmarshal s h =
      ap (λ x. x.1.calls) (sym h) ∙ calls-recorded _ c s.calls (ap (λ x. x.0) h)

  pub calls-room_call :
      (c : Call) (method : Method) (name : String) (marshalled : Result String)
      (unmarshal : String → Result lk.Message) (s : Session p lk) {u : Unit {0}} {t : Session p lk}
      → room_call c method name marshalled unmarshal s ≡ (ok u, t)
      → t.calls ≡ c ∷ s.calls
  unfolding room_call
  calls-room_call c method name marshalled unmarshal s h =
      calls-called_on s.room_client c method name marshalled unmarshal s h
