-- ===== src/SignalClient/Interleaving/Race.antt =====
-- The order of steps in which Close sees that the reader does not run while it still does.
use ziti_livekit_example.Prelude.{ℕ, ap, false, none, ◌≡◌, refl}
use ziti_livekit_example.Outcome.{Error, reason, err, fail}
use ziti_livekit_example.SignalClient.Types.{on_close, Websocket, Client}
use ziti_livekit_example.SignalClient.Reader.{read_on, read_response}
use ziti_livekit_example.SignalClient.Reader.Dispatch.{run_callback_lem}
use ziti_livekit_example.SignalClient.Interleaving.{
  ended, stored, System, stop, unset_conn, signal, tell, look, pick, load, close_old, pass, store,
  Reach, start, later,
}

module _ (ws : Websocket) (ch : ℕ) (new_conn : ws.Conn) (c : Client ws) where
  unread :
      (x : Client ws)
      → x.conn ≡ none
      → (read_response ws x).0 ≡ err (reason "cannot read response before join")
  unfolding read_response read_on fail
  unread x h = ap (λ o. (read_on ws o x).0) h

  -- Whenever a read fails, some order of the steps has connect store its new connection and the old
  -- reader forget it: nothing can be read from the client that connect then goes on with.
  pub connect_loses_conn :
      {e : Error}
      → (read_response ws c).0 ≡ err e
      → (s : System ws) × Reach ws ch new_conn c s
        × (s.caller ≡ stored false)
        × (s.reader ≡ ended)
        × (s.client.conn ≡ none)
        × ((read_response ws s.client).0 ≡ err (reason "cannot read response before join"))
  connect_loses_conn h =
      let looked = later (later start (stop c _ h)) (look _ _) in
      let stored_new =
        later
          (later (later (later (later looked (pick _ _ _)) (load _ _ _ _)) (close_old _ _ _ _ _))
            (pass _ _ _))
          (store _ _ _) in
      let run = later (later (later stored_new (unset_conn _ _)) (signal _ _)) (tell _ _) in
      let forgotten = ap (λ (x : Client ws). x.conn) (run_callback_lem ws on_close "" _) in
      (_, run, refl, refl, forgotten, unread _ forgotten)
