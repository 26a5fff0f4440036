-- ===== src/Openziti/Setup/Wiring.antt =====
-- The package's variables after InitCon and SetupOpenziti.
use ziti_livekit_example.Prelude.{ℕ, String, ◌<>◌, ◌≡◌, none, some, List, ◌∷◌, arith}
use ziti_livekit_example.Outcome.{Error, Result, ok, err, panic, ◌>>=◌}
use ziti_livekit_example.Outcome.Inversion.{bind-eq-ok, modify-eq-ok}
use ziti_livekit_example.Openziti.Platform.{Platform, World}
use ziti_livekit_example.Openziti.Disk.{os_stat, read_file}
use ziti_livekit_example.Openziti.Enroll.Files.{run-Keeps}
use ziti_livekit_example.Openziti.Auth.{enroll_options, enroll_if_needed, create_api_session}
use ziti_livekit_example.Openziti.Setup.{
  adopt_context, setup_ziti_context, setup_ziti_transport, share_transport, init_con,
  setup_openziti,
}

-- One context serves the collection that the transport dials through and the custom dialer, and the
-- HTTP client and the websocket library share the one transport.
pub record IsWired {p : Platform} (w : World p) : Type 0 where
  pub context : p.Context
  pub is_context : w.ziti_context ≡ some context
  pub collection : w.ziti_contexts ≡ some (p.add_context context p.new_collection)
  pub dialer : w.custom_dialer ≡ some context
  pub number : ℕ
  pub is_transport : w.transport ≡ some number
  pub client : w.client ≡ some number
  pub websocket : w.websocket ≡ some number

-- From one world to the next, none of the variables but the context has changed.
pub record SameDialers {p : Platform} (w w' : World p) : Type 0 where
  pub ziti_contexts : w'.ziti_contexts ≡ w.ziti_contexts
  pub transport : w'.transport ≡ w.transport
  pub client : w'.client ≡ w.client
  pub custom_dialer : w'.custom_dialer ≡ w.custom_dialer
  pub websocket : w'.websocket ≡ w.websocket

module _ (p : Platform) where
  adopt_context-eq-ok :
      (r : Result p.Context) (w : World p) {u : Unit {0}} {w' : World p}
      → adopt_context p r w ≡ (ok u, w')
      → (c : p.Context) × (w'.ziti_context ≡ some c)
  unfolding adopt_context ◌>>=◌
  adopt_context-eq-ok (ok c) w h = (c, ground arith)
  adopt_context-eq-ok (err e) w h = cc
  adopt_context-eq-ok (panic t) w h = cc

  setup_ziti_context-eq-ok :
      (path : String) (w : World p) {u : Unit {0}} {w' : World p}
      → setup_ziti_context p path w ≡ (ok u, w')
      → (c : p.Context) × (w'.ziti_context ≡ some c)
  unfolding setup_ziti_context
  setup_ziti_context-eq-ok path w h =
      let (file, a, h1, k1) = bind-eq-ok _ _ w h in
      let (cfg, b, h2, k2) = bind-eq-ok _ _ a k1 in
      let (r, c, h3, k3) = bind-eq-ok _ _ b k2 in adopt_context-eq-ok r c k3

  setup_ziti_context-SameDialers :
      (path : String) (w : World p) → SameDialers w (setup_ziti_context p path w).1
  unfolding setup_ziti_context adopt_context ◌>>=◌ read_file
  setup_ziti_context-SameDialers path w = ground arith

  share_transport-IsWired :
      (w : World p) {c : p.Context} {u : Unit {0}} {w' : World p}
      → w.ziti_context ≡ some c
      → share_transport p w ≡ (ok u, w')
      → IsWired w'
  unfolding share_transport setup_ziti_transport ◌>>=◌
  share_transport-IsWired w {c} e h = record {
    context = c;
    is_context = ground arith;
    collection = ground arith;
    dialer = ground arith;
    number = w.transports;
    is_transport = ground arith;
    client = ground arith;
    websocket = ground arith;
  }

  -- After a successful InitCon the package is wired for its new context.
  pub init_con-IsWired :
      (path : String) (w : World p) {u : Unit {0}} {w' : World p}
      → init_con p path w ≡ (ok u, w')
      → IsWired w'
  unfolding init_con
  init_con-IsWired path w h =
      let (v, a, h1, k1) = bind-eq-ok _ _ w h in
      let (c, is_c) = setup_ziti_context-eq-ok path w h1 in share_transport-IsWired a is_c k1

  -- A failed InitCon leaves the collection, the transport, the dialer and what is shared as they were.
  pub init_con_failed :
      (path : String) (w : World p) {e : Error}
      → (init_con p path w).0 ≡ err e
      → SameDialers w (init_con p path w).1
  unfolding init_con share_transport setup_ziti_transport ◌>>=◌
  init_con_failed path w h = ground (arith, setup_ziti_context-SameDialers path w)

  init_con_nil_context :
      (path : String) (w : World p) {file : String} {cfg : p.SdkConfig} {e : Error} {net' : p.Net}
      → (read_file p (path <> ".json") w).0 ≡ ok file
      → p.parse_config file ≡ ok cfg
      → p.new_context (p.add_config_type "all" cfg) w.net ≡ (err e, net')
      → ((init_con p path w).0 ≡ err e) × ((init_con p path w).1.ziti_context ≡ none)
  unfolding init_con setup_ziti_context adopt_context ◌>>=◌ read_file
  init_con_nil_context path w h k l = ground arith

  -- Where the configuration is read and no context can be made for it, InitCon fails with that error, the
  -- context is nil, and the collection, the custom dialer, the transport, the HTTP client and the
  -- websocket library are still what they were.
  pub init_con_drops_context :
      (path : String) (w : World p) {file : String} {cfg : p.SdkConfig} {e : Error} {net' : p.Net}
      → (read_file p (path <> ".json") w).0 ≡ ok file
      → p.parse_config file ≡ ok cfg
      → p.new_context (p.add_config_type "all" cfg) w.net ≡ (err e, net')
      → ((init_con p path w).0 ≡ err e)
        × ((init_con p path w).1.ziti_context ≡ none)
        × SameDialers w (init_con p path w).1
  init_con_drops_context path w h k l =
      let (fails, drops) = init_con_nil_context path w h k l in
      (fails, drops, init_con_failed path w fails)

  -- A goroutine was started, by an outcome.
  abbrev pub started : Result (Unit {0}) → String → List String → List String
  started (ok u) url l = url ∷ l
  started (err e) url l = l
  started (panic t) url l = l

  keepalives-init_con :
      (path : String) (w : World p) → (init_con p path w).1.keepalives ≡ w.keepalives
  unfolding init_con share_transport setup_ziti_context adopt_context setup_ziti_transport read_file
      ◌>>=◌
  keepalives-init_con path w = ground arith

  keepalives-create_api_session :
      (url path : String) (w : World p)
      → (create_api_session p url path w).1.keepalives ≡ w.keepalives
  unfolding create_api_session read_file ◌>>=◌
  keepalives-create_api_session url path w = ground arith

  keepalives-enroll_if_needed :
      (path : String) (w : World p) → (enroll_if_needed p path w).1.keepalives ≡ w.keepalives
  unfolding enroll_if_needed os_stat ◌>>=◌
  keepalives-enroll_if_needed path w = ground (arith, (run-Keeps p (enroll_options path)).at w)

  -- SetupOpenziti starts one goroutine with the controller's URL if it succeeds, and none otherwise.
  pub keepalives-setup_openziti :
      (url path : String) (w : World p)
      → (setup_openziti p url path w).1.keepalives
        ≡ started (setup_openziti p url path w).0 url w.keepalives
  unfolding setup_openziti ◌>>=◌
  keepalives-setup_openziti url path w =
      let a = (enroll_if_needed p path w).1 in
      let b = (create_api_session p url path a).1 in
      ground (
        arith,
        keepalives-enroll_if_needed path w,
        keepalives-create_api_session url path a,
        keepalives-init_con path b,
      )

  IsWired-keepalives :
      (l : List String) {w : World p} → IsWired w → IsWired (record w { keepalives = l })
  IsWired-keepalives l h = record {
    context = h.context;
    is_context = h.is_context;
    collection = h.collection;
    dialer = h.dialer;
    number = h.number;
    is_transport = h.is_transport;
    client = h.client;
    websocket = h.websocket;
  }

  -- After a successful SetupOpenziti there is a context, it is the one of the custom dialer and the
  -- only one of the collection, and the HTTP client and the websocket library use the transport that
  -- was made.
  pub setup_openziti-IsWired :
      (url path : String) (w : World p) {u : Unit {0}} {w' : World p}
      → setup_openziti p url path w ≡ (ok u, w')
      → IsWired w'
  unfolding setup_openziti
  setup_openziti-IsWired url path w h =
      let (u1, a, h1, k1) = bind-eq-ok _ _ w h in
      let (u2, b, h2, k2) = bind-eq-ok _ _ a k1 in
      let (u3, c, h3, k3) = bind-eq-ok _ _ b k2 in
      rw (← modify-eq-ok _ k3)
        (IsWired-keepalives (url ∷ c.keepalives) (init_con-IsWired path b h3))
