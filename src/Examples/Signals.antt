-- ===== src/Examples/Signals.antt =====
-- A signal client on a websocket that gives a trickle and an answer, and is then closed.
use ziti_livekit_example.Prelude.{
  ℕ, ◌+◌, ◌≡◌, ◌≢◌, refl, String, ◌==◌, true, false, Option, none, some, List, [], ◌∷◌,
  if◌then◌else◌, length, eqb, suc,
}
use ziti_livekit_example.Outcome.{reason, Result, ok, err, panic, ◌>>=◌}
use ziti_livekit_example.Text.{replace_prefix}
use ziti_livekit_example.SignalClient.Types.{
  Kind, answer, trickle, join, reconnect, SignalResponse, on_answer, on_trickle, on_close,
  binary_message, ConnectParams, Websocket, Client, on_net,
}
use ziti_livekit_example.SignalClient.Reader.{
  read_on, read_response, decode, reading, returned, read_rounds,
}
use ziti_livekit_example.SignalClient.Reader.Dispatch.{
  Receives, nothing, message, read_rounds-returned,
}
use ziti_livekit_example.SignalClient.Connect.{
  connect, dialled, close, wait_reader, close_conn, reconnect_room, to_websocket_url, url_params,
  get_stats_param_string,
}
use ziti_livekit_example.SignalClient.Connect.Failures.{
  socket_url, validation_url, Undialled, connect-Undialled,
}
use ziti_livekit_example.SignalClient.Connect.Lifecycle.{IsWell}
use ziti_livekit_example.SignalClient.Connect.Resuming.{Resumed, reconnect_room-Resumed}
use ziti_livekit_example.SignalClient.Connect.Session.{Connected, connect-Connected}

-- The messages by the number of those read before; only one host is there, and it validates
-- nothing.
abbrev message_at : ℕ → Result String
message_at n =
    if eqb n 0
    then ok "join"
    else if eqb n 1
    then ok "trickle"
    else if eqb n 2
    then ok "answer"
    else err (reason "EOF")

abbrev kind_of : String → Kind
kind_of t =
    if t == "join"
    then join
    else if t == "trickle"
    then trickle
    else if t == "answer"
    then answer
    else reconnect

abbrev pub socket : Websocket
socket = record {
  Net = ℕ;
  Conn = String;
  goos = "linux";
  parse_error = λ url. none;
  dial = λ url token n. (if token == "bad" then err (reason "refused") else ok url, n);
  new_request_error = λ url. none;
  validate = λ url token n. (ok (record { status = 401; body = ok "no" }), n + 10);
  read_message = λ conn n. (
    elim (message_at n) [ ok t ↦ ok (binary_message, t) | err e ↦ err e | panic t ↦ panic t ],
    n + 1,
  );
  write_message = λ conn payload n. (ok tt, n);
  close = λ conn n. n;
  drained = λ conn n. [];
  proto_marshal = λ req. ok "request";
  proto_unmarshal = λ t. ok (record { kind = kind_of t; payload = t });
  json_unmarshal = λ t. ok (record { kind = kind_of t; payload = t });
  is_eof = λ e. true;
  is_close_error = λ e. false;
}

-- A client with every callback set, before it has a connection and when its reader runs.
abbrev idle : ℕ → Client socket
idle n = record {
  net = n;
  conn = none;
  is_started = false;
  pending_response = none;
  reader_closed_ch = none;
  readers = 0;
  closed_chs = [];
  installed = λ cb. true;
  delivered = [];
}

abbrev running : ℕ → Client socket
running n = record (idle n) {
  conn = some "conn";
  is_started = true;
  reader_closed_ch = some 0;
  readers = 1;
}

abbrev host : String
host = "http://host"

abbrev params : ConnectParams
params = record { auto_subscribe = true; reconnect = false }

abbrev answers : List SignalResponse
answers =
    record { kind = trickle; payload = "trickle" }
    ∷ record { kind = answer; payload = "answer" }
    ∷ []

receives : Receives socket "conn" 1 answers 3
unfolding decode
receives =
    message {kind = binary_message} {payload = "trickle"} refl refl
      (message {kind = binary_message} {payload = "answer"} refl refl nothing)

read_rounds-returned_example :
    read_rounds socket 0 (length answers + suc 0) (reading (running 1))
    ≡ returned (record (running 1) {
      net = 4;
      conn = none;
      is_started = false;
      closed_chs = 0 ∷ [];
      delivered = (on_trickle, "trickle") ∷ (on_answer, "answer") ∷ (on_close, "") ∷ [];
    })
read_rounds-returned_example = read_rounds-returned socket 0 0 (running 1) refl receives refl

dials : connect socket host "good" params (idle 0) ≡ (
  ok (some (record { kind = join; payload = "join" })),
  (connect socket host "good" params (idle 0)).1,
)
unfolding connect dialled to_websocket_url replace_prefix url_params get_stats_param_string close
    wait_reader close_conn read_response read_on decode on_net ◌>>=◌
dials = refl

idle-IsWell : IsWell socket (idle 0)
idle-IsWell = record { below = tt; distinct = tt; running = tt }

connect-Connected_example :
    (host ≢ "")
    × Connected socket
        (socket_url socket host params)
        "good"
        (idle 0)
        (connect socket host "good" params (idle 0)).1
connect-Connected_example = connect-Connected socket host "good" params (idle 0) idle-IsWell dials

-- The parameters with which Reconnect dials, and what it is given by the server.
abbrev resuming : ConnectParams
resuming = record { auto_subscribe = true; reconnect = true }

redials : connect socket host "good" resuming (idle 1) ≡ (
  ok (some (record { kind = trickle; payload = "trickle" })),
  (connect socket host "good" resuming (idle 1)).1,
)
unfolding connect dialled to_websocket_url replace_prefix url_params get_stats_param_string close
    wait_reader close_conn read_response read_on decode on_net ◌>>=◌
redials = refl

reconnect_room-Resumed_example :
    Resumed socket
      (record { kind = trickle; payload = "trickle" })
      (connect socket host "good" resuming (idle 1)).1
      (reconnect_room socket host "good" params (idle 1))
reconnect_room-Resumed_example = reconnect_room-Resumed socket host "good" params (idle 1) redials

connect-Undialled_example :
    (r : Result (Option SignalResponse)) × (n : ℕ) × Undialled socket
      (validation_url socket host params)
      "bad"
      (reason "refused")
      0
      r
      n
    × (connect socket host "bad" params (idle 0) ≡ (r, idle n))
connect-Undialled_example =
    connect-Undialled socket host "bad" params (idle 0) (λ q. cc q) refl refl
