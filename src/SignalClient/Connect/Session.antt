-- ===== src/SignalClient/Connect/Session.antt =====
-- A connection that connect made, over the client's older one, and the reader of the new one.
use mathlib.Core.Path.{subst}
use ziti_livekit_example.Prelude.{
  ℕ, zero, suc, ◌<◌, String, ◌≡◌, ◌≢◌, refl, ap, sym, ◌∙◌, true, Option, none, some, arith, eq_iff,
}
use ziti_livekit_example.Outcome.{Error, Result, ok, err, panic, attempt, ◌>>=◌}
use ziti_livekit_example.Outcome.Inversion.{bind-eq-ok, lift_bind-eq-ok, guard_bind-eq-ok}
use ziti_livekit_example.SignalClient.Types.{
  SignalResponse, ConnectParams, Websocket, Client, on_net,
}
use ziti_livekit_example.SignalClient.Reader.{
  read_on, read_response, start, Worker, reading, returned, crashed, handle_read, read_rounds,
  end_worker,
}
use ziti_livekit_example.SignalClient.Reader.Dispatch.{handle_response_lem}
use ziti_livekit_example.SignalClient.Connect.{
  close, explain_failure, dialled, connect, to_websocket_url,
}
use ziti_livekit_example.SignalClient.Connect.Failures.{socket_url}
use ziti_livekit_example.SignalClient.Connect.Lifecycle.{
  Fresh, Ended, IsWell, IsStopped, close-IsStopped, close-Ended, start-IsWell,
  handle_response-IsWell, end_worker-IsWell, is_started-end_worker,
}

module _ (ws : Websocket) where
  pub read_response-keeps :
      (c : Client ws) → (read_response ws c).1 ≡ record c { net = (read_response ws c).1.net }
  unfolding read_response read_on on_net ◌>>=◌
  read_response-keeps c = ground arith

  -- The client after a dial that gave a connection.
  abbrev pub connected : ws.Conn → Client ws → Client ws
  connected conn c = record (close ws c) { conn = some conn }

  dialled-ok :
      (prefix : String) (params : ConnectParams) (token : String) (conn : ws.Conn) (c : Client ws)
      → dialled ws prefix params token (ok conn) c ≡ read_response ws (connected conn c)
  unfolding dialled ◌>>=◌
  dialled-ok prefix params token conn c = refl

  explain_failure-fails :
      (prefix : String) (params : ConnectParams) (token : String) (e : Error) (c : Client ws)
      {o : Option SignalResponse} {c' : Client ws}
      → ¬ (dialled ws prefix params token (err e) c ≡ (ok o, c'))
  unfolding dialled explain_failure on_net ◌>>=◌
  explain_failure-fails prefix params token e c h = ground arith

  dialled-crashes :
      (prefix : String) (params : ConnectParams) (token t : String) (c : Client ws)
      {o : Option SignalResponse} {c' : Client ws}
      → ¬ (dialled ws prefix params token (panic t) c ≡ (ok o, c'))
  unfolding dialled ◌>>=◌
  dialled-crashes prefix params token t c h = ground arith

  -- The connection that a successful connect dialled is the client's, the reader that ran on an older
  -- one has closed its channel, and the client is in order, ready for Start.
  pub record Connected (url token : String) (c c' : Client ws) : Type 0 where
    pub new_conn : ws.Conn
    pub net' : ws.Net
    pub dialled : ws.dial url token c.net ≡ (ok new_conn, net')
    pub conn : c'.conn ≡ some new_conn
    pub ended : Ended c.is_started c.reader_closed_ch c'.closed_chs
    pub stopped : IsStopped ws c'
    pub start : IsWell ws (start ws c') × ((start ws c').is_started ≡ true)

  is_started-start : (c : Client ws) → (start ws c).is_started ≡ true
  unfolding start
  is_started-start c = ground arith

  ready :
      (conn : ws.Conn) (url token : String) (c c1 c' : Client ws)
      → Ended c.is_started c.reader_closed_ch (close ws c1).closed_chs
      → ws.dial url token c.net ≡ (ok conn, c1.net)
      → IsWell ws c1
      → c' ≡ (read_response ws (connected conn c1)).1
      → Connected url token c c'
  ready conn url token c c1 c' ended d w e =
      let shape : c' ≡ record (close ws c1) {
        conn = some conn;
        net = (read_response ws (connected conn c1)).1.net;
      } =
        e ∙ read_response-keeps (connected conn c1) in
      let (w1, s1) = close-IsStopped ws c1 w in
      let w2 : IsWell ws c' =
        subst (IsWell ws) (sym shape)
          (record { below = w1.below; distinct = w1.distinct; running = w1.running }) in
      record {
        new_conn = conn;
        net' = c1.net;
        dialled = d;
        conn = ap (λ (x : Client ws). x.conn) shape;
        ended =
            subst (λ (x : Client ws). Ended c.is_started c.reader_closed_ch x.closed_chs)
              (sym shape) ended;
        stopped = (w2, ap (λ (x : Client ws). x.is_started) shape ∙ s1);
        start = (start-IsWell ws c' w2, is_started-start c');
      }

  dialled-Connected :
      (prefix url : String) (params : ConnectParams) (token : String) (c : Client ws)
      (r : Result ws.Conn) {net' : ws.Net} {o : Option SignalResponse} {c' : Client ws}
      → ws.dial url token c.net ≡ (r, net')
      → IsWell ws c
      → dialled ws prefix params token r (record c { net = net' }) ≡ (ok o, c')
      → Connected url token c c'
  dialled-Connected prefix url params token c (ok conn) {net'} d w h =
      ready conn url token c (record c { net = net' }) _ (close-Ended ws (record c { net = net' }))
        d (record { below = w.below; distinct = w.distinct; running = w.running })
        (sym
          (ap (λ x. x.1) (sym (dialled-ok prefix params token conn (record c { net = net' })) ∙ h)))
  dialled-Connected prefix url params token c (err e) d w h =
      elim (explain_failure-fails prefix params token e _ h) [ ]
  dialled-Connected prefix url params token c (panic t) d w h =
      elim (dialled-crashes prefix params token t _ h) [ ]

  on_net-attempt :
      {A : Type 0} (f : ws.Net → Result A × ws.Net) (c : Client ws) {r : Result A} {u : Client ws}
      → attempt (on_net f) c ≡ (ok r, u)
      → (f c.net ≡ (r, u.net)) × (u ≡ record c { net = u.net })
  unfolding attempt on_net
  on_net-attempt f c h = ground arith

  -- Where connect succeeds on a client in order, the URL is not empty, the connection that was dialled
  -- at its websocket URL is the client's, the reader that ran on an older one, if one did, has closed its
  -- channel, none runs any more, and the client is still in order, before and after Start.
  pub connect-Connected :
      (url_prefix token : String) (params : ConnectParams) (c : Client ws)
      {o : Option SignalResponse} {c' : Client ws}
      → IsWell ws c
      → connect ws url_prefix token params c ≡ (ok o, c')
      → (url_prefix ≢ "") × Connected (socket_url ws url_prefix params) token c c'
  unfolding connect
  connect-Connected url_prefix token params c {o} {c'} w h =
      let (some_url, k1) = guard_bind-eq-ok _ _ _ c h in
      let (u, parses, k2) = lift_bind-eq-ok _ _ c k1 in
      let (r, d, h3, k3) = bind-eq-ok _ _ c k2 in
      let (dials, same) = on_net-attempt _ c h3 in
      (
        (λ q. ground (arith, eq_iff url_prefix "")),
        dialled-Connected (to_websocket_url url_prefix) _ params token c r dials w
            (ap (λ x. dialled ws (to_websocket_url url_prefix) params token r x) (sym same) ∙ k3),
      )

  -- The reader of a running client, in its rounds.
  abbrev pub client_of : Worker ws → Client ws
  client_of (reading c) = c
  client_of (returned c) = c
  client_of (crashed c) = c

  -- A worker whose client is in order, and, while it reads, runs the client's own reader.
  abbrev pub Serving : ℕ → Worker ws → Type 0
  Serving ch (reading c) = IsWell ws c × (c.is_started ≡ true) × (c.reader_closed_ch ≡ some ch)
  Serving ch (returned c) = IsStopped ws c
  Serving ch (crashed c) = IsStopped ws c

  open_channel :
      (ch : ℕ) (c : Client ws) → Serving ch (reading c) → (ch < c.readers) × Fresh ch c.closed_chs
  open_channel ch c (w, s, o) = rw (s, o) at w.running

  net_keeps : (c : Client ws) (net' : ws.Net) → IsWell ws c → IsWell ws (record c { net = net' })
  net_keeps c net' w = record { below = w.below; distinct = w.distinct; running = w.running }

  end-Serving :
      (ch : ℕ) (c : Client ws) → Serving ch (reading c) → IsStopped ws (end_worker ws ch c)
  end-Serving ch c s =
      let (h, k) = open_channel ch c s in
      (end_worker-IsWell ws ch c s.0 h k, is_started-end_worker ws ch c)

  handle_read-Serving :
      (ch : ℕ) (r : Result (Option SignalResponse)) (c : Client ws)
      → Serving ch (reading c)
      → Serving ch (handle_read ws ch r c)
  unfolding handle_read
  handle_read-Serving ch (ok (some res)) c (w, s, o) = (
    handle_response-IsWell ws res c w,
    ap (λ (x : Client ws). x.is_started) (handle_response_lem ws res c) ∙ s,
    ap (λ (x : Client ws). x.reader_closed_ch) (handle_response_lem ws res c) ∙ o,
  )
  handle_read-Serving ch (ok none) c s = end-Serving ch c s
  handle_read-Serving ch (err e) c s = end-Serving ch c s
  handle_read-Serving ch (panic t) c s = end-Serving ch c s

  read_response-Serving :
      (ch : ℕ) (c : Client ws)
      → Serving ch (reading c)
      → Serving ch (reading (read_response ws c).1)
  read_response-Serving ch c (w, s, o) =
      rw (read_response-keeps c) (net_keeps c (read_response ws c).1.net w, s, o)

  -- Whatever a running reader is given to read, in any number of rounds, the client's channels stay in
  -- order, none closed twice, and once the reader has ended no reader runs.
  pub read_rounds-Serving :
      (ch n : ℕ) (g : Worker ws) → Serving ch g → Serving ch (read_rounds ws ch n g)
  unfolding read_rounds
  read_rounds-Serving ch zero g s = s
  read_rounds-Serving ch (suc n) (reading c) s = read_rounds-Serving ch n _ (
      handle_read-Serving ch (read_response ws c).0 (read_response ws c).1
        (read_response-Serving ch c s))
  read_rounds-Serving ch (suc n) (returned c) s = s
  read_rounds-Serving ch (suc n) (crashed c) s = s
