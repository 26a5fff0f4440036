-- ===== src/SignalClient/Reader.antt =====
-- readResponse, handleResponse, readWorker and Start.
pub mod Dispatch
use ziti_livekit_example.Prelude.{
  ℕ, zero, suc, ◌+◌, String, Bool, true, false, ◌||◌, Option, none, some, List, [], ◌∷◌, ◌++◌,
  if◌then◌else◌,
}
use ziti_livekit_example.Outcome.{
  Error, reason, error_text, Result, ok, err, panic, Action, pure, fail, lift, ◌>>=◌,
}
use ziti_livekit_example.Text.{contains}
use ziti_livekit_example.SignalClient.Types.{
  Kind, answer, offer, trickle, update, speakers_changed, track_published, mute, connection_quality,
  room_update, leave, refresh_token, track_unpublished, join, reconnect, other, SignalResponse,
  Callback, on_close, on_answer, on_offer, on_trickle, on_participant_update,
  on_local_track_published, on_speakers_changed, on_connection_quality, on_room_update,
  on_track_remote_muted, on_local_track_unpublished, on_token_refresh, on_leave, MessageType,
  binary_message, text_message, other_message, Websocket, Client, run_callback, on_net,
}

module _ (ws : Websocket) where
  -- The message of readResponse, by its type; a nil message stands beside a nil error for a type that
  -- is neither binary nor text.
  unfoldable pub decode : MessageType → String → Result (Option SignalResponse)
  decode binary_message payload = elim (ws.proto_unmarshal payload) [
    | ok m ↦ ok (some m)
    | err e ↦ err e
    | panic t ↦ panic t
  ]
  decode text_message payload = elim (ws.json_unmarshal payload) [
    | ok m ↦ ok (some m)
    | err e ↦ err e
    | panic t ↦ panic t
  ]
  decode other_message payload = ok none

  -- readResponse on the connection that the client holds
  unfoldable pub read_on : Option ws.Conn → Action (Client ws) (Option SignalResponse)
  unfolding decode on_net
  read_on none = fail (reason "cannot read response before join")
  read_on (some conn) = do
    (kind, payload) ← on_net (ws.read_message conn)
    lift (decode kind payload)

  -- readResponse
  unfoldable pub read_response : Action (Client ws) (Option SignalResponse)
  unfolding read_on
  read_response c = read_on c.conn c

  -- The callback for a kind of response.
  unfoldable pub handle_kind : Kind → String → Client ws → Client ws
  unfolding run_callback
  handle_kind answer payload c = run_callback on_answer payload c
  handle_kind offer payload c = run_callback on_offer payload c
  handle_kind trickle payload c = run_callback on_trickle payload c
  handle_kind update payload c = run_callback on_participant_update payload c
  handle_kind speakers_changed payload c = run_callback on_speakers_changed payload c
  handle_kind track_published payload c = run_callback on_local_track_published payload c
  handle_kind mute payload c = run_callback on_track_remote_muted payload c
  handle_kind connection_quality payload c = run_callback on_connection_quality payload c
  handle_kind room_update payload c = run_callback on_room_update payload c
  handle_kind leave payload c = run_callback on_leave payload c
  handle_kind refresh_token payload c = run_callback on_token_refresh payload c
  handle_kind track_unpublished payload c = run_callback on_local_track_unpublished payload c
  handle_kind join payload c = c
  handle_kind reconnect payload c = c
  handle_kind other payload c = c

  -- handleResponse
  unfoldable pub handle_response : SignalResponse → Client ws → Client ws
  unfolding handle_kind
  handle_response res c = handle_kind res.kind res.payload c

  -- The deferred end of readWorker, for the channel that it was given.
  unfoldable pub end_worker : ℕ → Client ws → Client ws
  unfolding run_callback
  end_worker ch c =
      run_callback on_close ""
        (record c { is_started = false; conn = none; closed_chs = ch ∷ c.closed_chs })

  -- readWorker before its loop: the response that a reconnect left
  unfoldable pub handle_pending : Option SignalResponse → Client ws → Client ws
  unfolding handle_response
  handle_pending none c = c
  handle_pending (some res) c = record (handle_response res c) { pending_response = none }

  unfoldable pub handle_all : List SignalResponse → Client ws → Client ws
  unfolding handle_response
  handle_all [] c = c
  handle_all (res ∷ rs) c = handle_all rs (handle_response res c)

  -- isIgnoredWebsocketError, of an error that is not nil
  unfoldable pub is_ignored_websocket_error : Error → Bool
  is_ignored_websocket_error e =
      ws.is_eof e
      || contains (error_text e) "use of closed network connection"
      || contains (error_text e) "connection reset by peer"
      || ws.is_close_error e

  -- Start: the channel of the reader that it starts, if none runs
  unfoldable pub start : Client ws → Client ws
  start c = if c.is_started then c else record c {
    is_started = true;
    reader_closed_ch = some c.readers;
    readers = c.readers + 1;
  }

-- A reader reads on, has returned, or was ended by a panic, which no one recovers.
pub data Worker (ws : Websocket) : Type 0 where
  reading returned crashed : Client ws → Worker ws

module _ (ws : Websocket) where
  -- A round of readWorker's loop, by what readResponse gave.
  unfoldable pub handle_read : ℕ → Result (Option SignalResponse) → Client ws → Worker ws
  unfolding handle_response end_worker
  handle_read ch (ok (some res)) c = reading (handle_response ws res c)
  handle_read ch (ok none) c = crashed (end_worker ws ch c)
  handle_read ch (err e) c = returned (end_worker ws ch c)
  handle_read ch (panic t) c = crashed (end_worker ws ch c)

  -- readWorker's loop, for a number of rounds
  unfoldable pub read_rounds : ℕ → ℕ → Worker ws → Worker ws
  unfolding handle_read read_response
  read_rounds ch zero w = w
  read_rounds ch (suc n) (reading c) =
      read_rounds ch n (handle_read ch (read_response ws c).0 (read_response ws c).1)
  read_rounds ch (suc n) (returned c) = returned c
  read_rounds ch (suc n) (crashed c) = crashed c

  -- readWorker
  unfoldable pub read_worker : ℕ → ℕ → Client ws → Worker ws
  unfolding read_rounds handle_pending
  read_worker ch n c = read_rounds ch n (reading (handle_pending ws c.pending_response c))
