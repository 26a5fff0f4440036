-- ===== src/Examples/Overlay.antt =====
-- A signal client that connects over the ziti transport.
use ziti_livekit_example.Prelude.{◌≡◌, refl, true, false, none, some, []}
use ziti_livekit_example.Outcome.{reason, ok, err, ◌>>=◌}
use ziti_livekit_example.Openziti.Disk.{read_file, file_error}
use ziti_livekit_example.Openziti.Setup.{
  init_con, setup_ziti_context, setup_ziti_transport, share_transport, adopt_context,
  transport_dial,
}
use ziti_livekit_example.Websocket.Types.{WsConn, Dialing}
use ziti_livekit_example.Websocket.Dial.{dial_context}
use ziti_livekit_example.SignalClient.Types.{
  join, binary_message, on_net, ConnectParams, SignalResponse, Client,
}
use ziti_livekit_example.SignalClient.Reader.{read_response}
use ziti_livekit_example.SignalClient.Connect.{connect}
use ziti_livekit_example.SignalClient.Connect.Lifecycle.{IsWell}
use ziti_livekit_example.SignalClient.Overlay.{
  Sockets, zitified, new_header_with_token, Overlaid, connect-init_con,
}
use ziti_livekit_example.Examples.Surroundings.{plain, first_world}
use ziti_livekit_example.Examples.Websocket.{wire, direct, before, ready, initialised}

abbrev joined : SignalResponse
joined = record { kind = join; payload = "room" }

abbrev sockets : Sockets (Dialing plain) (WsConn plain)
sockets = record {
  goos = "linux";
  parse_error = λ url. none;
  new_request_error = λ url. none;
  validate = λ url token s. (err (reason "unreachable"), s);
  read_message = λ conn s. (ok (binary_message, "room"), s);
  write_message = λ conn text s. (ok tt, s);
  close = λ conn s. s;
  drained = λ conn s. [];
  proto_marshal = λ req. ok "request";
  proto_unmarshal = λ text. ok joined;
  json_unmarshal = λ text. ok joined;
  is_eof = λ e. true;
  is_close_error = λ e. false;
}

abbrev new_client : Client (zitified wire direct sockets)
new_client = record {
  net = before;
  conn = none;
  is_started = false;
  pending_response = none;
  reader_closed_ch = none;
  readers = 0;
  closed_chs = [];
  installed = λ cb. true;
  delivered = [];
}

abbrev params : ConnectParams
params = record { auto_subscribe = true; reconnect = false }

abbrev connected : Client (zitified wire direct sockets)
connected = (connect (zitified wire direct sockets) "wss://livekit" "token" params new_client).1

connects :
    connect (zitified wire direct sockets) "wss://livekit" "token" params new_client
    ≡ (ok (some joined), connected)
unfolding connect ◌>>=◌ on_net dial_context new_header_with_token init_con setup_ziti_context
    read_file file_error adopt_context share_transport setup_ziti_transport transport_dial
    read_response
connects = refl

well : IsWell (zitified wire direct sockets) new_client
well = record { below = tt; distinct = tt; running = tt }

connect-init_con_example : Overlaid wire direct sockets ready "token" connected
connect-init_con_example =
    connect-init_con wire direct sockets "publisher" first_world "wss://livekit" "token" params
      new_client initialised (λ req. refl) refl well connects
