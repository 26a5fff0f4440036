-- ===== src/Examples/Controller.antt =====
-- Runs of lib/openziti against the controller.
use ziti_livekit_example.Prelude.{some, none, ◌<>◌, String, ◌≡◌, refl, ◌==◌, List, [], ◌∷◌}
use ziti_livekit_example.Outcome.{ok, err, reason, ◌>>=◌}
use ziti_livekit_example.Openziti.Platform.{
  Platform, Fields, World, session_request, client_do, close_body, send,
}
use ziti_livekit_example.Openziti.Identity.{
  role_admin, get_role_attributes, identity_json, get_identity, read_created, create_identity,
  update_identity, delete_identity,
}
use ziti_livekit_example.Openziti.Identity.Creation.{fetch, post, Exchanged, create_identity-eq-ok}
use ziti_livekit_example.Text.{has_suffix, trim_space, is_space}
use ziti_livekit_example.Openziti.Disk.{
  file_error, os_stat, read_file, create_file, encode_file, remove_file,
}
use ziti_livekit_example.Openziti.Identity.Sessions.{Orderly, identities-Orderly}
use ziti_livekit_example.Openziti.Enroll.{
  run, run_path, run_string, read_token, resolve_output_path, out_path_from_jwt, wrap, enroll_token,
  write_identity, not_written,
}
use ziti_livekit_example.Openziti.Auth.{
  enroll_options, enroll_if_needed, create_api_session, id_map, authenticate_at, keep_alive,
}
use ziti_livekit_example.Openziti.Auth.ApiSession.{create_api_session-eq-ok}
use ziti_livekit_example.Openziti.Auth.Closing.{Holds, keep_alive-Holds}
use ziti_livekit_example.Openziti.Setup.{
  setup_openziti, init_con, setup_ziti_context, adopt_context, share_transport,
  setup_ziti_transport,
}
use ziti_livekit_example.Openziti.Setup.Wiring.{
  IsWired, SameDialers, init_con_drops_context, setup_openziti-IsWired,
}
use ziti_livekit_example.Examples.Surroundings.{plain, token_disk, first_world}

-- The world after an admin was created.
abbrev created_world : World plain
created_world = record first_world {
  net = 2;
  sent = fetch plain first_world "id7" ∷ post plain first_world "json" ∷ [];
}

creates : create_identity plain "alice" "admin" first_world ≡ (ok ("id7", "token"), created_world)
unfolding create_identity get_role_attributes identity_json send session_request client_do
    close_body read_created get_identity ◌>>=◌
creates = refl

create_identity-eq-ok_example :
    (attributes : List String) × (json : String) × (get_role_attributes plain.getenv "admin"
      ≡ ok attributes)
    × (plain.marshal (identity_json "alice" ("admin" == role_admin) attributes) ≡ ok json)
    × Exchanged plain first_world json "id7" "token"
    × (created_world.sent ≡ fetch plain first_world "id7" ∷ post plain first_world json ∷ [])
create_identity-eq-ok_example = create_identity-eq-ok plain "alice" "admin" first_world creates

identities-Orderly_example :
    Orderly (create_identity plain "alice" "admin")
    × Orderly (get_identity plain "id7")
    × Orderly (update_identity plain "id7" "alice" "admin")
    × Orderly (delete_identity plain "id7")
identities-Orderly_example = identities-Orderly plain "id7" "alice" "admin"

keep_alive-Holds_example : Holds plain 0 3 (keep_alive plain "ctrl" 3 first_world)
keep_alive-Holds_example = keep_alive-Holds plain "ctrl" 3 first_world

sets_up :
    setup_openziti plain "ctrl" "publisher" first_world
    ≡ (ok tt, (setup_openziti plain "ctrl" "publisher" first_world).1)
unfolding setup_openziti enroll_if_needed os_stat file_error run enroll_options run_path run_string
    read_token read_file resolve_output_path out_path_from_jwt has_suffix trim_space is_space wrap
    enroll_token write_identity create_file encode_file remove_file not_written create_api_session
    id_map authenticate_at init_con setup_ziti_context adopt_context share_transport
    setup_ziti_transport ◌>>=◌
sets_up = refl

setup_openziti-IsWired_example : IsWired (setup_openziti plain "ctrl" "publisher" first_world).1
setup_openziti-IsWired_example = setup_openziti-IsWired plain "ctrl" "publisher" first_world sets_up

opens_session :
    create_api_session plain "ctrl" "publisher" first_world
    ≡ (ok tt, (create_api_session plain "ctrl" "publisher" first_world).1)
unfolding create_api_session read_file file_error id_map authenticate_at ◌>>=◌
opens_session = refl

create_api_session-eq-ok_example :
    (file : String) × (id : Fields) × (credentials : Fields) × (first_world.disk.contents
        "publisher.json"
      ≡ some file)
    × (plain.unmarshal_id file ≡ ok (some id))
    × (ok id ≡ ok credentials)
    × (plain.authenticate ("ctrl" <> "/edge/management/v1") credentials 0 ≡ (
      ok (create_api_session plain "ctrl" "publisher" first_world).1.session_token,
      (create_api_session plain "ctrl" "publisher" first_world).1.net,
    ))
create_api_session-eq-ok_example =
    create_api_session-eq-ok plain "ctrl" "publisher" first_world opens_session

-- A platform on which no context can be made.
abbrev broken : Platform
broken = record plain { new_context = λ cfg n. (err (reason "no controller"), n) }

abbrev broken_world : World broken
broken_world = record {
  net = 0;
  disk = token_disk;
  session_token = "secret";
  ziti_context = some 5;
  ziti_contexts = some (5 ∷ []);
  transport = some 0;
  client = some 0;
  custom_dialer = some 5;
  websocket = some 0;
  transports = 1;
  keepalives = [];
  sent = [];
  open_bodies = 0;
}

reads_identity : (read_file broken "publisher.json" broken_world).0 ≡ ok "{}"
unfolding read_file file_error
reads_identity = refl

init_con_drops_context_example :
    ((init_con broken "publisher" broken_world).0 ≡ err (reason "no controller"))
    × ((init_con broken "publisher" broken_world).1.ziti_context ≡ none)
    × SameDialers broken_world (init_con broken "publisher" broken_world).1
init_con_drops_context_example =
    init_con_drops_context broken "publisher" broken_world reads_identity refl refl
