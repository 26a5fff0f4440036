-- ===== src/Examples/RoomService.antt =====
-- The room service at the programs' endpoint, over a client that InitCon made.
use ziti_livekit_example.Prelude.{
  ◌+◌, String, ◌<>◌, ◌≡◌, refl, true, none, some, [], ◌∷◌, inr, arith,
}
use ziti_livekit_example.Outcome.{Result, ok, error_text, ◌>>=◌}
use ziti_livekit_example.Openziti.Platform.{World}
use ziti_livekit_example.Openziti.Disk.{read_file, file_error}
use ziti_livekit_example.Openziti.Setup.{
  init_con, setup_ziti_context, setup_ziti_transport, share_transport, adopt_context,
}
use ziti_livekit_example.RoomService.Types.{
  set_meta, TwerrJson, Ctx, Twirp, IsTwirp, list_rooms, Grant, room_create, room_list, room_admin,
  RoomServiceClient,
}
use ziti_livekit_example.RoomService.Errors.{
  marshal_error_to_json, is_http_redirect, error_from_response,
}
use ziti_livekit_example.RoomService.Errors.RoundTrips.{Same, error_from_response-marshal}
use ziti_livekit_example.RoomService.Call.Exchanges.{Exchanged, service_call-eq-ok}
use ziti_livekit_example.RoomService.Client.{new_room_service_client, service_call}
use ziti_livekit_example.Examples.Surroundings.{plain}
use ziti_livekit_example.Examples.Websocket.{ready}

abbrev grant_text : Grant → String
grant_text room_create = "create"
grant_text room_list = "list"
grant_text (room_admin room) = room

abbrev no_room : TwerrJson
no_room = record { code = "not_found"; msg = "no such room"; meta = ("room", "testroom") ∷ [] }

-- A service whose errors are their own JSON: a code, and a message behind it.
abbrev pub twirp : Twirp plain
twirp = record {
  TwirpError = TwerrJson;
  new_error = λ c m. record { code = c; msg = m; meta = [] };
  internal_error_with = λ e. record { code = "internal"; msg = error_text e; meta = [] };
  with_meta = λ e k v. record e { meta = set_meta k v e.meta };
  code = λ e. e.code;
  msg = λ e. e.msg;
  meta_map = λ e. e.meta;
  is_valid_error_code = λ c. true;
  decimal = λ n. "number";
  quoted = λ t. t;
  status_text = λ n. "status";
  cut = λ n t. t;
  byte_length = λ t. 0;
  marshal_error = λ e. some "json";
  decode_error = λ t. some no_room;
  exchange = λ req n. (ok (record { status = 200; location = ""; body = inr "rooms" }), n + 1);
  to_jwt = λ key secret grant. ok (key <> grant_text grant);
  parse_url = λ url. none;
  url_text = λ u. u.host;
  path_join = λ parts. "/twirp/livekit.RoomService";
}

abbrev background : Ctx plain
background = record { headers = none; done = λ n. none }

abbrev client : RoomServiceClient
client = new_room_service_client twirp "wss://livekit.ziti.example:7880" "key" "secret"

abbrev unmarshal : String → Result String
unmarshal text = ok text

abbrev listed : World plain
listed = (service_call twirp client list_rooms "" background (ok "all") unmarshal ready).1

lists :
    service_call twirp client list_rooms "" background (ok "all") unmarshal ready
    ≡ (ok (inr "rooms"), listed)
unfolding service_call ◌>>=◌ init_con setup_ziti_context read_file file_error adopt_context
    share_transport setup_ziti_transport
lists = refl

service_call-eq-ok_example : Exchanged twirp client list_rooms "" (ok "all") unmarshal ready "rooms"
service_call-eq-ok_example =
    service_call-eq-ok twirp client list_rooms "" background (ok "all") unmarshal ready lists

documented : IsTwirp twirp
documented = record {
  IsPlain = λ e. Unit;
  new_error-IsPlain = λ c m h. tt;
  with_meta-IsPlain = λ e k v h. tt;
  code-new_error = λ c m h. refl;
  msg-new_error = λ c m h. refl;
  meta_map-new_error = λ c m h. refl;
  code-with_meta = λ e k v h. refl;
  msg-with_meta = λ e k v h. refl;
  meta_map-with_meta = λ e k v h. refl;
}

error_from_response-marshal_example :
    Same twirp documented
      (error_from_response twirp
        (record { status = 404; location = ""; body = inr (marshal_error_to_json twirp no_room) }))
      no_room
unfolding is_http_redirect
error_from_response-marshal_example =
    error_from_response-marshal twirp documented no_room 404 "" ("json", refl, refl) refl refl
      (omega arith) (tt, tt) refl
