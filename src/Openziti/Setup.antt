-- ===== src/Openziti/Setup.antt =====
-- lib/openziti/setup.go: the ziti context, the transport and the dialers, kept in variables.
pub mod Wiring
use ziti_livekit_example.Prelude.{ℕ, ◌+◌, String, Option, none, some, List, [], ◌∷◌, ◌++◌, ◌<>◌}
use ziti_livekit_example.Outcome.{
  Error, Result, ok, err, panic, Action, pure, fail, lift, attempt, modify, ◌>>=◌, ◌>>◌,
}
use ziti_livekit_example.Text.{before_colon}
use ziti_livekit_example.Openziti.Platform.{Platform, World}
use ziti_livekit_example.Openziti.Disk.{read_file}
use ziti_livekit_example.Openziti.Auth.{enroll_if_needed, create_api_session}

module _ (p : Platform) where
  -- A call of the network, on the network of the world.
  abbrev on_net : {A : Type 0} → (p.Net → Result A × p.Net) → Action (World p) A
  on_net f w = let (r, net') = f w.net in (r, record w { net = net' })

  -- CustomDialer.Dial
  unfoldable pub custom_dialer_dial : p.Context → String → String → Action (World p) p.Conn
  custom_dialer_dial ctx network address = on_net (p.context_dial ctx (before_colon address))

  -- FallbackDialer.Dial
  unfoldable pub fallback_dial : String → String → p.Net → Result p.Conn × p.Net
  fallback_dial network address = p.net_dial network address

  -- `ZitiContext, err = ziti.NewContext(cfg)`, which assigns nil beside an error, and the refresh of
  -- its services, whose error is dropped
  unfoldable pub adopt_context : Result p.Context → Action (World p) (Unit {0})
  adopt_context (ok ctx) =
      modify (λ w. record w { ziti_context = some ctx })
      >> (attempt (on_net (p.refresh_services ctx)) >>= λ r. pure tt)
  adopt_context (err e) = modify (λ w. record w { ziti_context = none }) >> fail e
  adopt_context (panic t) = lift (panic t)

  -- SetupZitiContext
  unfoldable pub setup_ziti_context : String → Action (World p) (Unit {0})
  setup_ziti_context path = do
    file ← read_file p (path <> ".json")
    cfg ← lift (p.parse_config file)
    r ← attempt (on_net (p.new_context (p.add_config_type "all" cfg)))
    adopt_context r

  -- A collection with the package's context, if there is one.
  abbrev with_context : Option p.Context → p.CtxCollection
  with_context (some c) = p.add_context c p.new_collection
  with_context none = p.new_collection

  -- SetupZitiTransport: a fresh copy of the default transport
  unfoldable pub setup_ziti_transport : Action (World p) (Unit {0})
  setup_ziti_transport = modify λ w. record w {
    ziti_contexts = some (with_context w.ziti_context);
    transport = some w.transports;
    transports = w.transports + 1;
  }

  -- The DialContext and Dial of that transport, which read `ZitiContexts` when they dial.
  unfoldable pub transport_dial : String → String → Action (World p) p.Conn
  unfolding fallback_dial
  transport_dial network address w = elim w.ziti_contexts [
    | none ↦ (panic "nil ZitiContexts", w)
    | some cs ↦ on_net (p.collection_dial cs fallback_dial network address) w
  ]

  -- InitCon from SetupZitiTransport on: what the client, the dialer and the websocket library use
  unfoldable pub share_transport : Action (World p) (Unit {0})
  share_transport = do
    setup_ziti_transport
    modify (λ w. record w {
      client = w.transport;
      custom_dialer = w.ziti_context;
      websocket = w.transport;
    })

  -- InitCon
  unfoldable pub init_con : String → Action (World p) (Unit {0})
  init_con ziti_id_path = do setup_ziti_context ziti_id_path; share_transport

  -- SetupOpenziti: `go KeepAlive(ctrlUrl)` starts a goroutine
  unfoldable pub setup_openziti : String → String → Action (World p) (Unit {0})
  setup_openziti ctrl_url ziti_id_path = do
    enroll_if_needed p ziti_id_path
    create_api_session p ctrl_url ziti_id_path
    init_con ziti_id_path
    modify (λ w. record w { keepalives = ctrl_url ∷ w.keepalives })
