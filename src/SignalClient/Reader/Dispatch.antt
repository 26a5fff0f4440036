-- ===== src/SignalClient/Reader/Dispatch.antt =====
-- What the reader delivers, and how it ends.
use mathlib.Core.List.{append-nil, append_assoc}
use ziti_livekit_example.Prelude.{
  ℕ, zero, suc, ◌+◌, ◌≡◌, refl, ap, sym, ◌∙◌, Bool, false, Option, none, some, List, [], ◌∷◌, ◌++◌,
  length, arith, String, if◌then◌else◌,
}
use ziti_livekit_example.Outcome.{Error, Result, ok, err, ◌>>=◌}
use ziti_livekit_example.SignalClient.Types.{
  Kind, answer, offer, trickle, update, speakers_changed, track_published, mute, connection_quality,
  room_update, leave, refresh_token, track_unpublished, join, reconnect, other, SignalResponse,
  Callback, on_close, on_answer, on_offer, on_trickle, on_participant_update,
  on_local_track_published, on_speakers_changed, on_connection_quality, on_room_update,
  on_track_remote_muted, on_local_track_unpublished, on_token_refresh, on_leave, Websocket, Client,
  run_callback, MessageType, on_net,
}
use ziti_livekit_example.SignalClient.Reader.{
  read_on, decode, read_response, handle_kind, handle_response, handle_all, end_worker, reading,
  returned, handle_read, read_rounds,
}

-- The callback that each kind of response is for, if any.
abbrev pub callback_for : Kind → Option Callback
callback_for answer = some on_answer
callback_for offer = some on_offer
callback_for trickle = some on_trickle
callback_for update = some on_participant_update
callback_for speakers_changed = some on_speakers_changed
callback_for track_published = some on_local_track_published
callback_for mute = some on_track_remote_muted
callback_for connection_quality = some on_connection_quality
callback_for room_update = some on_room_update
callback_for leave = some on_leave
callback_for refresh_token = some on_token_refresh
callback_for track_unpublished = some on_local_track_unpublished
callback_for join = none
callback_for reconnect = none
callback_for other = none

-- The runs of callbacks that a response gives rise to.
abbrev pub runs_of : (Callback → Bool) → Option Callback → String → List (Callback × String)
runs_of installed none payload = []
runs_of installed (some cb) payload = if installed cb then (cb, payload) ∷ [] else []

abbrev pub runs : (Callback → Bool) → SignalResponse → List (Callback × String)
runs installed res = runs_of installed (callback_for res.kind) res.payload

abbrev pub all_runs : (Callback → Bool) → List SignalResponse → List (Callback × String)
all_runs installed [] = []
all_runs installed (res ∷ rs) = runs installed res ++ all_runs installed rs

suc-add : (k n : ℕ) → suc k + n ≡ suc (k + n)
suc-add k n = omega arith

zero-add : (n : ℕ) → 0 + n ≡ n
zero-add n = omega arith

module _ (ws : Websocket) where
  pub run_callback_lem :
      (cb : Callback) (payload : String) (c : Client ws)
      → run_callback cb payload c
        ≡ record c { delivered = c.delivered ++ runs_of c.installed (some cb) payload }
  unfolding run_callback
  run_callback_lem cb payload c = ground (arith, append-nil c.delivered)

  handle_kind_lem :
      (k : Kind) (payload : String) (c : Client ws)
      → handle_kind ws k payload c
        ≡ record c { delivered = c.delivered ++ runs_of c.installed (callback_for k) payload }
  unfolding handle_kind run_callback
  handle_kind_lem k payload c = ground (arith, append-nil c.delivered)

  -- handleResponse runs the callback that the kind of the response is for, with its payload, if that
  -- callback is set; it runs no other and changes nothing else.
  pub handle_response_lem :
      (res : SignalResponse) (c : Client ws)
      → handle_response ws res c ≡ record c { delivered = c.delivered ++ runs c.installed res }
  unfolding handle_response
  handle_response_lem res c = handle_kind_lem res.kind res.payload c

  pub handle_all_lem :
      (rs : List SignalResponse) (c : Client ws)
      → handle_all ws rs c ≡ record c { delivered = c.delivered ++ all_runs c.installed rs }
  unfolding handle_all
  handle_all_lem [] c = ap (λ l. record c { delivered = l }) (sym (append-nil c.delivered))
  handle_all_lem (res ∷ rs) c = rw (handle_response_lem res c) (
      handle_all_lem rs (record c { delivered = c.delivered ++ runs c.installed res })
      ∙ ap (λ l. record c { delivered = l }) (append_assoc c.delivered _ _))

  -- From one state of the network to another, a connection gives these responses, in this order.
  pub data Receives (conn : ws.Conn) : ws.Net → List SignalResponse → ws.Net → Type 0 where
    nothing : {net : ws.Net} → Receives conn net [] net
    message :
        {net net' net'' : ws.Net} {kind : MessageType} {payload : String} {res : SignalResponse}
        {rs : List SignalResponse}
        → ws.read_message conn net ≡ (ok (kind, payload), net')
        → decode ws kind payload ≡ ok (some res)
        → Receives conn net' rs net''
        → Receives conn net (res ∷ rs) net''

  -- The client after it has received responses, and had them handled.
  abbrev pub received : List SignalResponse → ws.Net → Client ws → Client ws
  received rs net' c = record c { net = net'; delivered = c.delivered ++ all_runs c.installed rs }

  read_response-ok :
      (c : Client ws) {conn : ws.Conn} {net' : ws.Net} {kind : MessageType} {payload : String}
      {r : Result (Option SignalResponse)}
      → c.conn ≡ some conn
      → ws.read_message conn c.net ≡ (ok (kind, payload), net')
      → decode ws kind payload ≡ r
      → read_response ws c ≡ (r, record c { net = net' })
  unfolding read_response read_on on_net ◌>>=◌
  read_response-ok c h k d = simp (h, k, d)

  read_response-err :
      (c : Client ws) {conn : ws.Conn} {net' : ws.Net} {e : Error}
      → c.conn ≡ some conn
      → ws.read_message conn c.net ≡ (err e, net')
      → read_response ws c ≡ (err e, record c { net = net' })
  unfolding read_response read_on on_net ◌>>=◌
  read_response-err c h k = simp (h, k)

  received-nothing : (c : Client ws) {net : ws.Net} → c.net ≡ net → c ≡ received [] net c
  received-nothing c {net} s =
      ap (λ x. record c { net = x }) s
      ∙ ap (λ l. record c { net = net; delivered = l }) (sym (append-nil c.delivered))

  received-one :
      (res : SignalResponse) (net' : ws.Net) (c : Client ws)
      → handle_response ws res (record c { net = net' }) ≡ received (res ∷ []) net' c
  received-one res net' c =
      handle_response_lem res (record c { net = net' })
      ∙ ap (λ l. record c { net = net'; delivered = c.delivered ++ l })
          (sym (append-nil (runs c.installed res)))

  received-more :
      (res : SignalResponse) (rs : List SignalResponse) (c : Client ws)
      → (c.delivered ++ all_runs c.installed (res ∷ [])) ++ all_runs c.installed rs
        ≡ c.delivered ++ all_runs c.installed (res ∷ rs)
  received-more res rs c =
      append_assoc c.delivered _ _
      ∙ ap (λ l. c.delivered ++ (l ++ all_runs c.installed rs)) (append-nil (runs c.installed res))

  -- A reader handles the responses that its connection gives, one in each round.
  read_rounds-Receives :
      (ch n : ℕ) {conn : ws.Conn} (c : Client ws) {net net' : ws.Net} {rs : List SignalResponse}
      → c.conn ≡ some conn
      → c.net ≡ net
      → Receives conn net rs net'
      → read_rounds ws ch (length rs + n) (reading c)
        ≡ read_rounds ws ch n (reading (received rs net' c))
  unfolding read_rounds
  read_rounds-Receives ch n c h s nothing =
      ap (λ m. read_rounds ws ch m (reading c)) (zero-add n)
      ∙ ap (λ c'. read_rounds ws ch n (reading c')) (received-nothing c s)
  read_rounds-Receives ch n {conn} c h s (message {net'} {net''} {res} {rs} r d rest) =
      let step = read_response-ok c h (ap (λ x. ws.read_message conn x) s ∙ r) d in
      let c1 = received (res ∷ []) net' c in
      ap (λ m. read_rounds ws ch m (reading c)) (suc-add (length rs) n)
      ∙ ap (λ x. read_rounds ws ch (length rs + n) (handle_read ws ch x.0 x.1)) step
      ∙ ap (λ c'. read_rounds ws ch (length rs + n) (reading c')) (received-one res net' c)
      ∙ read_rounds-Receives ch n c1 h refl rest
      ∙ ap (λ l. read_rounds ws ch n (reading (record c { net = net''; delivered = l })))
          (received-more res rs c)

  read_rounds-ended :
      (ch n : ℕ) (c : Client ws)
      → read_rounds ws ch n (returned (end_worker ws ch c))
        ≡ returned (record c {
          conn = none;
          is_started = false;
          closed_chs = ch ∷ c.closed_chs;
          delivered = c.delivered ++ runs_of c.installed (some on_close) "";
        })
  unfolding read_rounds end_worker run_callback
  read_rounds-ended ch zero c = ground (arith, append-nil c.delivered)
  read_rounds-ended ch (suc n) c = ground (arith, append-nil c.delivered)

  -- A reader whose connection gives some responses and then fails has returned after as many rounds
  -- as there are responses, and one: it has had them handled in their order, run OnClose last if
  -- it is set, closed its channel, and left the client stopped and without a connection.
  pub read_rounds-returned :
      (ch n : ℕ) (c : Client ws) {conn : ws.Conn} {net' net'' : ws.Net} {rs : List SignalResponse}
      {e : Error}
      → c.conn ≡ some conn
      → Receives conn c.net rs net'
      → ws.read_message conn net' ≡ (err e, net'')
      → read_rounds ws ch (length rs + suc n) (reading c)
        ≡ returned (record c {
          net = net'';
          conn = none;
          is_started = false;
          closed_chs = ch ∷ c.closed_chs;
          delivered =
              (c.delivered ++ all_runs c.installed rs) ++ runs_of c.installed (some on_close) "";
        })
  unfolding read_rounds handle_read
  read_rounds-returned ch n c {net'} {rs} h r f =
      read_rounds-Receives ch (suc n) c h refl r
      ∙ ap (λ x. read_rounds ws ch n (handle_read ws ch x.0 x.1))
          (read_response-err (received rs net' c) h f)
      ∙ read_rounds-ended ch n (received rs _ c)
