-- ===== src/RoomService/Types.antt =====
-- What the Twirp clients take from Go's libraries and from twirp, and the requests that they make.
use ziti_livekit_example.Prelude.{
  ℕ, String, Bool, true, Option, List, [], ◌∷◌, ◌==◌, if◌then◌else◌, ◌≡◌, ◌⊎◌,
}
use ziti_livekit_example.Outcome.{Error, Result}
use ziti_livekit_example.Openziti.Platform.{Platform}
use ziti_livekit_example.Websocket.Types.{Url, Header}

-- A map of texts, each key once.
abbrev pub Meta : Type 0
Meta = List (String × String)

-- m[k] = v
unfoldable pub set_meta : String → String → Meta → Meta
set_meta k v [] = (k, v) ∷ []
set_meta k v ((j, w) ∷ m) =
    let rest = set_meta k v m in if j == k then (k, v) ∷ m else (j, w) ∷ rest

-- An http.Request of a Twirp client; its method is POST.
pub record HttpRequest : Type 0 where
  pub url : String
  pub header : Header
  pub body : String

-- An http.Response: its status, Header.Get("Location"), and the text or the error that
-- io.ReadAll(resp.Body) gives.
pub record HttpResponse : Type 0 where
  pub status : ℕ
  pub location : String
  pub body : Error ⊎ String

-- twerrJSON
pub record TwerrJson : Type 0 where
  pub code : String
  pub msg : String
  pub meta : Meta

-- The methods of RoomService.
pub data Method : Type 0 where
  create_room list_rooms delete_room list_participants get_participant remove_participant : Method
  mute_published_track update_participant update_subscriptions send_data update_room_metadata :
      Method

-- The video grants with which the methods are called.
pub data Grant : Type 0 where
  room_create room_list : Grant
  room_admin : String → Grant

-- RoomServiceClient, with the URL that its methods' URLs begin with.
pub record RoomServiceClient : Type 0 where
  pub api_key : String
  pub api_secret : String
  pub service_url : String

-- A context.Context: the headers that twirp.WithHTTPRequestHeaders put in it, and its Err.
pub record Ctx (p : Platform) : Type 0 where
  pub headers : Option Header
  pub done : p.Net → Option Error

-- twirp, JSON, and the client of lib/openziti once there is one.
pub record Twirp (p : Platform) : Type 1 where
  -- twirp.Error, with its constructors and methods
  pub TwirpError : Type 0
  pub new_error : String → String → TwirpError
  pub internal_error_with : Error → TwirpError
  pub with_meta : TwirpError → String → String → TwirpError
  pub code : TwirpError → String
  pub msg : TwirpError → String
  pub meta_map : TwirpError → Meta
  pub is_valid_error_code : String → Bool
  -- fmt's %d, %q, http.StatusText, and a text cut after a number of bytes
  pub decimal : ℕ → String
  pub quoted : String → String
  pub status_text : ℕ → String
  pub cut : ℕ → String → String
  pub byte_length : String → ℕ
  -- json.Marshal of an error, and a decoder that takes no unknown fields
  pub marshal_error : TwerrJson → Option String
  pub decode_error : String → Option TwerrJson
  -- the exchange of ZitiClient.Do, and the signature of a token
  pub exchange : HttpRequest → p.Net → Result HttpResponse × p.Net
  pub to_jwt : String → String → Grant → Result String
  -- url.Parse, URL.String and path.Join
  pub parse_url : String → Option Url
  pub url_text : Url → String
  pub path_join : List String → String

-- What twirp documents of the errors that NewError makes, with the metadata that is put on them.
-- Nothing is said of any other error, such as that of a panic, which takes no metadata.
pub record IsTwirp {p : Platform} (tw : Twirp p) : Type 1 where
  pub IsPlain : tw.TwirpError → Type 0
  pub new_error-IsPlain :
      (c m : String) → tw.is_valid_error_code c ≡ true → IsPlain (tw.new_error c m)
  pub with_meta-IsPlain :
      (e : tw.TwirpError) (k v : String) → IsPlain e → IsPlain (tw.with_meta e k v)
  pub code-new_error :
      (c m : String) → tw.is_valid_error_code c ≡ true → tw.code (tw.new_error c m) ≡ c
  pub msg-new_error :
      (c m : String) → tw.is_valid_error_code c ≡ true → tw.msg (tw.new_error c m) ≡ m
  pub meta_map-new_error :
      (c m : String) → tw.is_valid_error_code c ≡ true → tw.meta_map (tw.new_error c m) ≡ []
  pub code-with_meta :
      (e : tw.TwirpError) (k v : String) → IsPlain e → tw.code (tw.with_meta e k v) ≡ tw.code e
  pub msg-with_meta :
      (e : tw.TwirpError) (k v : String) → IsPlain e → tw.msg (tw.with_meta e k v) ≡ tw.msg e
  pub meta_map-with_meta :
      (e : tw.TwirpError) (k v : String)
      → IsPlain e
      → tw.meta_map (tw.with_meta e k v) ≡ set_meta k v (tw.meta_map e)
