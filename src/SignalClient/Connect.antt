-- ===== src/SignalClient/Connect.antt =====
-- connect, Join, Reconnect and Close.
pub mod Failures
pub mod Lifecycle
pub mod Resuming
pub mod Session
use text.Mathlib.Text.{starts_with}
use ziti_livekit_example.Prelude.{
  ℕ, String, ◌==◌, ◌<>◌, Bool, true, false, not, Option, none, some, List, [], ◌∷◌, eqb,
  if◌then◌else◌,
}
use ziti_livekit_example.Outcome.{
  Error, reason, error_text, Result, ok, err, panic, Action, pure, fail, lift, guard, modify,
  attempt, ◌>>=◌, ◌>>◌,
}
use ziti_livekit_example.Text.{has_suffix, replace_prefix}
use ziti_livekit_example.SignalClient.Types.{
  Kind, answer, leave, join, reconnect, SignalResponse, on_leave, ConnectParams, Validation,
  Websocket, Client, run_callback, on_net,
}
use ziti_livekit_example.SignalClient.Reader.{handle_all, end_worker, read_response}

abbrev pub err_url_not_provided : Error
err_url_not_provided = reason "URL was not provided"

abbrev pub err_cannot_connect_signal : Error
err_cannot_connect_signal = reason "could not establish signal connection"

abbrev pub err_cannot_dial_signal : Error
err_cannot_dial_signal = reason "could not dial signal connection"

-- ToWebsocketURL and ToHttpURL of utils.go
unfoldable pub to_websocket_url : String → String
to_websocket_url url = replace_prefix url "http" "ws"

unfoldable pub to_http_url : String → String
to_http_url url = replace_prefix url "ws" "http"

-- The text that a refused validation's status gives, and the body that is put behind it.
unfoldable pub status_text : ℕ → String
status_text status =
    if eqb status 401
    then "unauthorized: "
    else if eqb status 404
    then "not found: "
    else if eqb status 503
    then "unavailable: "
    else ""

abbrev pub or_nothing : Result String → String
or_nothing (ok t) = t
or_nothing _ = ""

-- The error of connect, by the outcome of the validation.
unfoldable pub validation_error : Result Validation → Error
unfolding status_text
validation_error (ok v) =
    if eqb v.status 200
    then err_cannot_connect_signal
    else reason (status_text v.status <> or_nothing v.body)
validation_error (err e) = err_cannot_dial_signal
validation_error (panic t) = err_cannot_dial_signal

-- url.Parse
abbrev pub parsed : Option Error → Result (Unit {0})
parsed none = ok tt
parsed (some e) = err e

-- Join's reading of the response; a nil response is dereferenced for the error's text
unfoldable pub join_response : Option SignalResponse → Result String
join_response none = panic "invalid memory address or nil pointer dereference"
join_response (some res) = elim res.kind [
  | join ↦ ok res.payload
  | _ ↦ err (reason ("unexpected response: " <> res.payload))
]

module _ (ws : Websocket) where
  -- getStatsParamString
  unfoldable pub get_stats_param_string : String
  get_stats_param_string = "&sdk=go&os=" <> ws.goos

  -- `urlSuffix`, after the path
  unfoldable pub url_params : ConnectParams → String
  unfolding get_stats_param_string
  url_params params =
      "?protocol=12&version=2.1.3"
      <> ((if params.auto_subscribe then "&auto_subscribe=1" else "&auto_subscribe=0")
          <> ((if params.reconnect then "&reconnect=1" else "") <> get_stats_param_string))

  -- Close: the connection is closed, and the call returns when the running reader has ended, after
  -- what it still handles.
  unfoldable pub wait_reader : Bool → Option ℕ → List SignalResponse → Client ws → Client ws
  unfolding handle_all end_worker
  wait_reader true (some ch) late c = end_worker ws ch (handle_all ws late c)
  wait_reader true none late c = c
  wait_reader false ch late c = c

  unfoldable pub close_conn : Option ws.Conn → Client ws → Client ws
  close_conn none c = c
  close_conn (some conn) c = record c { net = ws.close conn c.net }

  abbrev pub late_responses : Option ws.Conn → ws.Net → List SignalResponse
  late_responses none net = []
  late_responses (some conn) net = ws.drained conn net

  unfoldable pub close : Client ws → Client ws
  unfolding wait_reader close_conn
  close c =
      wait_reader c.is_started c.reader_closed_ch (late_responses c.conn c.net)
        (close_conn c.conn c)

  -- connect after a dial that failed with an error
  unfoldable pub explain_failure :
      String → ConnectParams → String → Error → Action (Client ws) SignalResponse
  unfolding validation_error url_params to_http_url
  explain_failure prefix params token e =
      if has_suffix (error_text e) ":53: server misbehaving"
      then fail err_cannot_dial_signal
      else let url = to_http_url prefix <> ("/rtc/validate" <> url_params params) in
        elim (ws.new_request_error url) [
          | some e' ↦ fail err_cannot_dial_signal
          | none ↦ do v ← attempt (on_net (ws.validate url token)); fail (validation_error v)
        ]

  unfoldable pub dialled :
      String → ConnectParams → String → Result ws.Conn → Action (Client ws) (Option SignalResponse)
  unfolding explain_failure close
  dialled prefix params token (err e) =
      explain_failure prefix params token e >>= λ res. pure (some res)
  dialled prefix params token (panic t) = lift (panic t)
  dialled prefix params token (ok conn) = do
    modify close
    modify (λ c. record c { conn = some conn })
    read_response ws

  -- connect
  unfoldable pub connect :
      String → String → ConnectParams → Action (Client ws) (Option SignalResponse)
  unfolding dialled to_websocket_url url_params
  connect url_prefix token params = do
    guard (not (url_prefix == "")) err_url_not_provided
    let prefix = to_websocket_url url_prefix
    let url = prefix <> ("/rtc" <> url_params params)
    lift (parsed (ws.parse_error url))
    conn ← attempt (on_net (ws.dial url token))
    dialled prefix params token conn

  -- Join
  unfoldable pub join_room : String → String → ConnectParams → Action (Client ws) String
  unfolding join_response
  join_room url_prefix token params = do
    res ← connect url_prefix token params
    lift (join_response res)

  -- Reconnect's reading of the response: none is the nil response of an older server
  unfoldable pub reconnect_kind : Kind → SignalResponse → Action (Client ws) (Option String)
  reconnect_kind reconnect res = pure (some res.payload)
  reconnect_kind leave res = do
    modify (run_callback on_leave res.payload)
    fail (reason ("reconnect received left, reason: " <> res.payload))
  reconnect_kind _ res = do modify (λ c. record c { pending_response = some res }); pure none

  unfoldable pub reconnect_response : Option SignalResponse → Action (Client ws) (Option String)
  unfolding reconnect_kind
  reconnect_response none = pure none
  reconnect_response (some res) = reconnect_kind res.kind res

  -- Reconnect
  unfoldable pub reconnect_room :
      String → String → ConnectParams → Action (Client ws) (Option String)
  unfolding reconnect_response
  reconnect_room url_prefix token params = do
    res ← connect url_prefix token (record params { reconnect = true })
    modify (λ c. record c { pending_response = none })
    reconnect_response res
