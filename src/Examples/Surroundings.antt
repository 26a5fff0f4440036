-- ===== src/Examples/Surroundings.antt =====
-- A controller that grants what it is asked for, a disk, and a world before the program has run.
use ziti_livekit_example.Prelude.{
  ℕ, ◌+◌, String, ◌==◌, ◌<>◌, true, false, none, some, List, [], ◌∷◌, if◌then◌else◌,
}
use ziti_livekit_example.Outcome.{ok}
use ziti_livekit_example.Openziti.Platform.{Platform, World, Disk, Fields, end}

-- The network counts what was asked of it.
abbrev pub plain : Platform
plain = record {
  Net = ℕ;
  Token = String;
  Config = String;
  Credentials = Fields;
  SdkConfig = String;
  Context = ℕ;
  CtxCollection = List ℕ;
  Conn = String;
  getenv = λ name. name;
  new_request_error = λ url. none;
  exchange = λ req n.
      (ok (record { status = if req.verb == "POST" then 201 else 200; body = ok "body" }), n + 1);
  marshal = λ json. ok "json";
  unmarshal_created = λ body. ok (record { id = "id7" });
  unmarshal_identity = λ body. ok (record {
    is_admin = if body == "" then true else false;
    jwt = "token";
    role_attributes = [];
  });
  unmarshal_id = λ text. ok (some end);
  credentials_from_map = λ fs. ok fs;
  authenticate = λ url credentials n. (ok (url <> "/session"), n + 1);
  parse_token = λ text. ok text;
  enroll = λ flags n. (ok (flags.token <> "-enrolled"), n + 1);
  encode = λ config. ok config;
  parse_config = λ text. ok text;
  add_config_type = λ t cfg. cfg <> t;
  new_context = λ cfg n. (ok n, n + 1);
  refresh_services = λ ctx n. (ok tt, n + 1);
  context_dial = λ ctx service n. (ok service, n + 1);
  new_collection = [];
  add_context = λ ctx cs. ctx ∷ cs;
  collection_dial = λ cs fallback network address n. fallback network address n;
  net_dial = λ network address n. (ok address, n + 1);
}

-- A disk with an enrollment token and two identities.
abbrev pub token_disk : Disk
token_disk = record {
  contents = λ path.
      if path == "publisher.jwt"
      then some "jwt"
      else if path == "publisher.json"
      then some "{}"
      else if path == "subscriber.json"
      then some "{}"
      else none;
  fault = λ op path. none;
  partial = λ path text. "";
}

-- The world of a program that starts.
abbrev pub first_world : World plain
first_world = record {
  net = 0;
  disk = token_disk;
  session_token = "secret";
  ziti_context = none;
  ziti_contexts = none;
  transport = none;
  client = none;
  custom_dialer = none;
  websocket = none;
  transports = 0;
  keepalives = [];
  sent = [];
  open_bodies = 0;
}
