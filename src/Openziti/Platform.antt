-- ===== src/Openziti/Platform.antt =====
-- What lib/openziti uses of the system and of libraries, and the state that its functions change.
-- The controller's HTTP service, the ziti SDK and JSON are parameters; the file system is modelled
-- by the contents of files and by faults that the environment chooses.
pub mod Send
use ziti_livekit_example.Prelude.{ℕ, ◌+◌, ◌-◌, String, Bool, Option, none, some, List, [], ◌∷◌}
use ziti_livekit_example.Outcome.{Error, Result, ok, err, Action, finally, ◌>>=◌}

-- The JSON that the package sends.
mutual
  pub data Json : Type 0 where
    boolean : Bool → Json
    text : String → Json
    texts : List String → Json
    object : Fields → Json

  pub data Fields : Type 0 where
    end : Fields
    field : String → Json → Fields → Fields

-- An `http.Request`, its headers in the order in which they were set.
pub record Request : Type 0 where
  pub verb : String
  pub url : String
  pub body : String
  pub headers : List (String × String)

-- An `http.Response`; `body` is what `io.ReadAll(resp.Body)` gives.
pub record Response : Type 0 where
  pub status : ℕ
  pub body : Result String

-- zitiCreateIdentityResp, flattened.
pub record CreateIdentityResp : Type 0 where
  pub id : String

-- zitiIdentity, flattened.
pub record ZitiIdentity : Type 0 where
  pub is_admin : Bool
  pub jwt : String
  pub role_attributes : List String

-- The operations of the file system that may be refused.
pub data FileOp : Type 0 where
  stat read create write remove : FileOp

pub record Disk : Type 0 where
  pub contents : String → Option String
  pub fault : FileOp → String → Option Error
  -- what a write that fails has left of its text in a file
  pub partial : String → String → String

-- The flags that `EnrollAction.Run` hands to `enroll.Enroll`.
pub record EnrollmentFlags (Token : Type 0) : Type 0 where
  pub cert_file : String
  pub key_file : String
  pub key_alg : String
  pub token : Token
  pub id_name : String
  pub additional_cas : String
  pub username : String
  pub password : String
  pub verbose : Bool

pub record Platform : Type 1 where
  -- the controller and the network, as far as replies depend on what was sent before
  pub Net : Type 0
  -- enrollment tokens, enrolled identities, management credentials
  pub Token : Type 0
  pub Config : Type 0
  pub Credentials : Type 0
  -- of the ziti SDK: the part of its configuration that the program leaves alone, its contexts and
  -- their collections, and connections
  pub SdkConfig : Type 0
  pub Context : Type 0
  pub CtxCollection : Type 0
  pub Conn : Type 0
  pub getenv : String → String
  -- the error of `http.NewRequest` for a URL
  pub new_request_error : String → Option Error
  -- `client.Do`
  pub exchange : Request → Net → Result Response × Net
  pub marshal : Json → Result String
  pub unmarshal_created : String → Result CreateIdentityResp
  pub unmarshal_identity : String → Result ZitiIdentity
  -- `json.Unmarshal` into a map: the value under "id", if that key is there and holds an object
  pub unmarshal_id : String → Result (Option Fields)
  -- `identity.NewConfigFromMap` and `edge_apis.NewIdentityCredentialsFromConfig`
  pub credentials_from_map : Fields → Result Credentials
  -- `managementClient.Authenticate` at a controller's URL, and the session's token
  pub authenticate : String → Credentials → Net → Result String × Net
  pub parse_token : String → Result Token
  pub enroll : EnrollmentFlags Token → Net → Result Config × Net
  pub encode : Config → Result String
  -- `ziti.NewConfigFromFile`, on the file's contents
  pub parse_config : String → Result SdkConfig
  -- `cfg.ConfigTypes = append(cfg.ConfigTypes, …)`
  pub add_config_type : String → SdkConfig → SdkConfig
  pub new_context : SdkConfig → Net → Result Context × Net
  pub refresh_services : Context → Net → Result (Unit {0}) × Net
  pub context_dial : Context → String → Net → Result Conn × Net
  pub new_collection : CtxCollection
  pub add_context : Context → CtxCollection → CtxCollection
  -- a dialer of a collection, with the dialer that it falls back to
  pub collection_dial :
      CtxCollection
      → (String → String → Net → Result Conn × Net)
      → String
      → String
      → Net
      → Result Conn × Net
  -- `net.Dialer.Dial`
  pub net_dial : String → String → Net → Result Conn × Net

-- The package's variables (`transport`, `client` and `websocket` by the number of the transport that
-- they point to), the disk, the network, the keepalive goroutines that were started, and two
-- counts of what was done: the requests sent, latest first, and the response bodies not yet closed.
pub record World (p : Platform) : Type 0 where
  pub net : p.Net
  pub disk : Disk
  pub session_token : String
  pub ziti_context : Option p.Context
  pub ziti_contexts : Option p.CtxCollection
  pub transport : Option ℕ
  pub client : Option ℕ
  pub custom_dialer : Option p.Context
  pub websocket : Option ℕ
  pub transports : ℕ
  pub keepalives : List String
  pub sent : List Request
  pub open_bodies : ℕ

module _ (p : Platform) where
  -- The headers of every request of the package, set after http.NewRequest.
  abbrev pub session_headers : String → List (String × String)
  session_headers token = ("Content-Type", "application/json") ∷ ("zt-session", token) ∷ []

  abbrev pub made : Option Error → Request → Result Request
  made none req = ok req
  made (some e) req = err e

  -- http.NewRequest, and the two header calls that follow it wherever the package makes a request
  unfoldable pub session_request : String → String → String → Action (World p) Request
  session_request verb url body w = (
    made (p.new_request_error url)
        (record { verb = verb; url = url; body = body; headers = session_headers w.session_token }),
    w,
  )

  -- A reply opens a body.
  abbrev pub opened : Result Response → ℕ → ℕ
  opened (ok r) n = n + 1
  opened _ n = n

  -- client.Do(req)
  unfoldable pub client_do : Request → Action (World p) Response
  client_do req w =
      let (r, net') = p.exchange req w.net in
      (r, record w { net = net'; sent = req ∷ w.sent; open_bodies = opened r w.open_bodies })

  -- resp.Body.Close()
  unfoldable pub close_body : World p → World p
  close_body w = record w { open_bodies = w.open_bodies - 1 }

  -- The steps with which each function of the package that talks to the controller begins: the
  -- request, `client.Do(req)`, and `defer resp.Body.Close()` for the rest of the function.
  unfoldable pub send :
      {A : Type 0} → String → String → String → (Response → Action (World p) A) → Action (World p) A
  unfolding session_request client_do close_body
  send verb url body rest = do
    req ← session_request verb url body
    resp ← client_do req
    finally (rest resp) close_body
