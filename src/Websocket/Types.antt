-- ===== src/Websocket/Types.antt =====
-- The data of the websocket dialer, its state, and what it takes from Go's libraries.
use ziti_livekit_example.Prelude.{ℕ, ◌+◌, String, Bool, Option, List}
use ziti_livekit_example.Outcome.{Result, ok, err, panic, Action}
use ziti_livekit_example.Openziti.Platform.{Platform, World}

-- A url.URL, as far as the dialer reads it.
pub record Url : Type 0 where
  pub scheme : String
  pub user : Option String
  pub host : String
  pub path : String

-- An http.Header, each key at most once, in the order in which the keys were set or are ranged over.
abbrev pub Header : Type 0
Header = List (String × List String)

-- The http.Request of the handshake.
pub record Request : Type 0 where
  pub url : Url
  pub header : Header
  pub host : String

-- The http.Response; its body, which the dialer replaces, is left out.
pub record Response : Type 0 where
  pub status : ℕ
  pub header : Header

-- A tls.Config, as far as the dialer reads it.
pub record TlsConfig : Type 0 where
  pub server_name : String
  pub next_protos : List String
  pub insecure_skip_verify : Bool

-- A Conn of the package, without its buffers.
pub record WsConn (p : Platform) : Type 0 where
  pub net_conn : p.Conn
  pub subprotocol : String
  pub compressed : Bool

-- The world of lib/openziti, the count of net connections that are open, and the response that stands
-- beside the result.
pub record Dialing (p : Platform) : Type 0 where
  pub world : World p
  pub open_conns : ℕ
  pub response : Option Response

-- A netDialerFunc: a network and an address.
abbrev pub NetDialer : Platform → Type 0
NetDialer p = String → String → Action (Dialing p) p.Conn

-- What the dialer takes from the libraries and the system. `set_deadline` sets the deadline of
-- the handshake, and `clear_deadline` none.
pub record Wire (p : Platform) : Type 1 where
  pub Jar : Type 0
  pub cookies : Jar → Url → p.Net → List String
  pub set_cookies : Jar → Url → Header → p.Net → p.Net
  pub add_cookie : String → Header → Header
  pub generate_challenge_key : p.Net → Result String × p.Net
  pub parse_url : String → Result Url
  pub set_deadline : p.Conn → p.Net → Result (Unit {0}) × p.Net
  pub clear_deadline : p.Conn → p.Net → Result (Unit {0}) × p.Net
  pub close_conn : p.Conn → p.Net → p.Net
  pub proxy_from_url : Url → NetDialer p → Result (NetDialer p)
  pub tls_client : p.Conn → TlsConfig → p.Conn
  pub tls_handshake : p.Conn → p.Net → Result (Unit {0}) × p.Net
  pub verify_hostname : p.Conn → String → p.Net → Result (Unit {0}) × p.Net
  pub write_request : Request → p.Conn → p.Net → Result (Unit {0}) × p.Net
  pub read_response : Request → p.Conn → p.Net → Result Response × p.Net
  -- of util.go: tokenListContainsValue, parseExtensions and computeAcceptKey
  pub token_list_contains : Header → String → String → Bool
  pub parse_extensions : Header → List (List (String × String))
  pub compute_accept_key : String → String
  -- Header.Get
  pub header_get : Header → String → String

-- A Dialer; its buffers are left out.
pub record Dialer (p : Platform) (wire : Wire p) : Type 0 where
  pub net_dial : Option (NetDialer p)
  pub net_dial_context : Option (NetDialer p)
  pub net_dial_tls_context : Option (NetDialer p)
  pub proxy : Option (Request → Result (Option Url))
  pub tls_client_config : Option TlsConfig
  pub handshake_timeout : ℕ
  pub subprotocols : List String
  pub enable_compression : Bool
  pub jar : Option wire.Jar

-- A dial opens a connection if it succeeds.
abbrev pub opened : {A : Type 0} → Result A → ℕ → ℕ
opened (ok c) n = n + 1
opened (err e) n = n
opened (panic t) n = n

module _ {p : Platform} where
  -- A call of the network, on the network of the world.
  unfoldable pub on_net : {A : Type 0} → (p.Net → Result A × p.Net) → Action (Dialing p) A
  on_net f s =
      let (r, net') = f s.world.net in (r, record s { world = record s.world { net = net' } })

  -- A dial of lib/openziti.
  unfoldable pub in_world : Action (World p) p.Conn → Action (Dialing p) p.Conn
  in_world m s =
      let (r, w) = m s.world in (r, record s { world = w; open_conns = opened r s.open_conns })
