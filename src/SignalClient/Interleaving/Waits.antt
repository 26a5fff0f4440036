-- ===== src/SignalClient/Interleaving/Waits.antt =====
-- What a Close that saw the reader running is worth, and that it is the close of one step.
use mathlib.Core.Path.{subst}
use ziti_livekit_example.Prelude.{
  ℕ, true, false, none, some, Option, List, ◌∷◌, ◌++◌, ◌≡◌, ap, sym, ◌∙◌, Bool,
}
use ziti_livekit_example.SignalClient.Types.{SignalResponse, on_close, Websocket, Client}
use ziti_livekit_example.SignalClient.Reader.{end_worker, handle_all}
use ziti_livekit_example.SignalClient.Reader.Dispatch.{all_runs, handle_all_lem, run_callback_lem}
use ziti_livekit_example.SignalClient.Connect.{wait_reader, close_conn}
use ziti_livekit_example.SignalClient.Connect.Lifecycle.{close_conn-keeps}
use mathlib.Core.List.{append_assoc}
use ziti_livekit_example.SignalClient.Interleaving.{ended, stored, System, Reach}
use ziti_livekit_example.SignalClient.Interleaving.Invariant.{expected, Starts, Reach-Tracks}
use ziti_livekit_example.SignalClient.Interleaving.Views.{saw, IsPast, Fits, conn_at, left_by}

module _ (ws : Websocket) (ch : ℕ) (new_conn : ws.Conn) (c : Client ws) where
  -- In every order of the steps of connect and of the reader that it closes, once the new connection is
  -- stored by a call whose Close saw the reader running, the reader has set its last field and closed its
  -- channel, and the client holds the new connection.
  pub stored-Keeps :
      {s : System ws}
      → Starts ws ch new_conn c
      → Reach ws ch new_conn c s
      → s.caller ≡ stored true
      → IsPast s.reader × (s.client.conn ≡ some new_conn)
  stored-Keeps {s} w r e =
      let tr = Reach-Tracks ws ch new_conn c w r (ap saw e) in
      (
        subst (λ k. Fits ch s.reader k) e tr.fits,
        ap (λ (x : Client ws). x.conn) tr.client
            ∙ ap (λ k. conn_at k (left_by s.reader c.conn) new_conn) e,
      )

  -- The client that Close leaves when it waits for a reader that handles these responses, with the new
  -- connection.
  abbrev pub closed_with : List SignalResponse → ws.Net → Client ws
  closed_with late net' =
      record (wait_reader ws c.is_started c.reader_closed_ch late (close_conn ws c.conn c)) {
        conn = some new_conn;
        net = net';
      }

  wait_reader-expected :
      (b : Bool) (o : Option ℕ) (late : List SignalResponse) (net' : ws.Net)
      → b ≡ true
      → o ≡ some ch
      → record (wait_reader ws b o late (close_conn ws c.conn c)) {
        conn = some new_conn;
        net = net';
      }
        ≡ expected ws ch new_conn c ended (stored true) late net'
  unfolding wait_reader end_worker
  wait_reader-expected b o late net' e f =
      let before = close_conn ws c.conn c in
      let kept = record c { net = before.net } in
      let all = record kept { delivered = c.delivered ++ all_runs c.installed late } in
      ap (λ (x : Client ws). record x { conn = some new_conn; net = net' })
        (ap (λ b. wait_reader ws b o late before) e
          ∙ ap (λ o. wait_reader ws true o late before) f
          ∙ ap (λ x. end_worker ws ch (handle_all ws late x)) (close_conn-keeps ws c.conn c)
          ∙ ap (end_worker ws ch) (handle_all_lem ws late kept)
          ∙ run_callback_lem ws on_close ""
              (record all { is_started = false; conn = none; closed_chs = ch ∷ c.closed_chs }))
      ∙ ap (λ l. record (expected ws ch new_conn c ended (stored true) late net') { delivered = l })
          (append_assoc c.delivered _ _)

  -- Once such a reader has ended too, the client is what the close of one step leaves it, after the
  -- reader has handled some responses, and with the new connection.
  pub stored-wait_reader :
      {s : System ws}
      → Starts ws ch new_conn c
      → Reach ws ch new_conn c s
      → s.caller ≡ stored true
      → s.reader ≡ ended
      → (late : List SignalResponse) × (s.client ≡ closed_with late s.client.net)
  stored-wait_reader {s} w r e f =
      let tr = Reach-Tracks ws ch new_conn c w r (ap saw e) in
      (
        tr.late,
        tr.client
            ∙ ap (λ x. expected ws ch new_conn c x s.caller tr.late s.client.net) f
            ∙ ap (λ k. expected ws ch new_conn c ended k tr.late s.client.net) e
            ∙ sym (
                wait_reader-expected c.is_started c.reader_closed_ch tr.late s.client.net w.started
                  w.own),
      )
