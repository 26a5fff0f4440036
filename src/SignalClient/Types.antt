-- ===== src/SignalClient/Types.antt =====
-- The data of the signal client, its state, and what it takes from websockets and protobuf.
use ziti_livekit_example.Prelude.{
  ℕ, String, Bool, Option, List, [], ◌∷◌, ◌++◌, if◌then◌else◌, none, false,
}
use ziti_livekit_example.Outcome.{Error, Result, Action}

-- The kinds of a livekit.SignalResponse; `other` is one that the client does not know.
pub data Kind : Type 0 where
  answer offer trickle update speakers_changed track_published mute : Kind
  connection_quality room_update leave refresh_token track_unpublished : Kind
  join reconnect other : Kind

pub record SignalResponse : Type 0 where
  pub kind : Kind
  pub payload : String

-- The function fields of SignalClient.
pub data Callback : Type 0 where
  on_close on_answer on_offer on_trickle on_participant_update : Callback
  on_local_track_published on_speakers_changed on_connection_quality on_room_update : Callback
  on_track_remote_muted on_local_track_unpublished on_token_refresh on_leave : Callback

-- The message types of a websocket.
pub data MessageType : Type 0 where
  binary_message text_message other_message : MessageType

-- The requests that the client sends.
pub data SignalRequest : Type 0 where
  trickle_request : String → String → SignalRequest
  offer_request answer_request : String → SignalRequest
  mute_request : String → Bool → SignalRequest
  sync_state_request track_setting_request update_metadata_request : String → SignalRequest
  leave_request : SignalRequest

-- connectParams, as far as the client reads them
pub record ConnectParams : Type 0 where
  pub auto_subscribe : Bool
  pub reconnect : Bool

-- An HTTP reply to the validation request.
pub record Validation : Type 0 where
  pub status : ℕ
  pub body : Result String

pub record Websocket : Type 1 where
  pub Net : Type 0
  pub Conn : Type 0
  pub goos : String
  -- the error of `url.Parse`
  pub parse_error : String → Option Error
  -- websocket.DefaultDialer.Dial at a URL, with a token in the header
  pub dial : String → String → Net → Result Conn × Net
  -- the error of http.NewRequest, and openziti.ZitiClient.Do of the validation request
  pub new_request_error : String → Option Error
  pub validate : String → String → Net → Result Validation × Net
  pub read_message : Conn → Net → Result (MessageType × String) × Net
  pub write_message : Conn → String → Net → Result (Unit {0}) × Net
  pub close : Conn → Net → Net
  -- what the reader of a connection still handles once the connection is closed
  pub drained : Conn → Net → List SignalResponse
  pub proto_marshal : SignalRequest → Result String
  pub proto_unmarshal : String → Result SignalResponse
  pub json_unmarshal : String → Result SignalResponse
  -- `err == io.EOF`, and websocket.IsCloseError with the codes that the client ignores
  pub is_eof : Error → Bool
  pub is_close_error : Error → Bool

-- SignalClient; `installed` tells which callbacks are set and `delivered` which were run, the first
-- one first. A reader's channel is the number of its reader.
pub record Client (ws : Websocket) : Type 0 where
  pub net : ws.Net
  pub conn : Option ws.Conn
  pub is_started : Bool
  pub pending_response : Option SignalResponse
  pub reader_closed_ch : Option ℕ
  pub readers : ℕ
  pub closed_chs : List ℕ
  pub installed : Callback → Bool
  pub delivered : List (Callback × String)

module _ {ws : Websocket} where
  -- NewSignalClient, with the callbacks that its owner then sets
  unfoldable pub new_signal_client : ws.Net → (Callback → Bool) → Client ws
  new_signal_client net' set = record {
    net = net';
    conn = none;
    is_started = false;
    pending_response = none;
    reader_closed_ch = none;
    readers = 0;
    closed_chs = [];
    installed = set;
    delivered = [];
  }

  -- if c.OnX != nil { c.OnX(…) }
  unfoldable pub run_callback : Callback → String → Client ws → Client ws
  run_callback cb payload c =
      if c.installed cb then record c { delivered = c.delivered ++ (cb, payload) ∷ [] } else c

  -- A call of the network.
  unfoldable pub on_net : {A : Type 0} → (ws.Net → Result A × ws.Net) → Action (Client ws) A
  on_net f c = let (r, net') = f c.net in (r, record c { net = net' })
