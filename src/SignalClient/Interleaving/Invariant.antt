-- ===== src/SignalClient/Interleaving/Invariant.antt =====
-- What holds in every order of the steps in which Close saw that the reader runs.
use mathlib.Core.List.{append-nil, append_assoc}
use mathlib.Core.Path.{subst}
use ziti_livekit_example.Prelude.{
  ℕ, Bool, true, false, Option, none, some, List, [], ◌∷◌, ◌++◌, ◌≡◌, refl, ap, sym, ◌∙◌,
}
use ziti_livekit_example.SignalClient.Types.{
  SignalResponse, on_close, Websocket, Client, run_callback,
}
use ziti_livekit_example.SignalClient.Reader.{read_response, handle_response}
use ziti_livekit_example.SignalClient.Reader.Dispatch.{
  runs, runs_of, all_runs, handle_response_lem, run_callback_lem,
}
use ziti_livekit_example.SignalClient.Connect.{close_conn}
use ziti_livekit_example.SignalClient.Connect.Lifecycle.{Fresh}
use ziti_livekit_example.SignalClient.Connect.Session.{read_response-keeps}
use ziti_livekit_example.SignalClient.Interleaving.{
  ReaderAt, serving, stopped, unset, signalled, ended, CallerAt, idle, seen, picked, loaded, shut,
  waited, stored, System, IsClosed, at, Step, serve, stop, unset_conn, signal, tell, look, pick,
  load, close_old, pass, pass_nil, wait, store, Reach, start, later,
}
use ziti_livekit_example.SignalClient.Interleaving.Views.{
  saw, is_serving, closed_by, left_by, conn_at, told_by, IsPast, Fits, of_some, closed-IsPast,
  all_runs-append,
}

module _ (ws : Websocket) (ch : ℕ) (new_conn : ws.Conn) (c : Client ws) where
  -- The client, by where the reader and the caller are and by the responses that were handled.
  abbrev pub expected : ReaderAt → CallerAt ws.Conn → List SignalResponse → ws.Net → Client ws
  expected r k late net' = record c {
    net = net';
    conn = conn_at k (left_by r c.conn) new_conn;
    is_started = is_serving r;
    closed_chs = closed_by r ch c.closed_chs;
    delivered = c.delivered ++ told_by r c.installed late;
  }

  pub record Tracks (s : System ws) : Type 0 where
    pub late : List SignalResponse
    pub client : s.client ≡ expected s.reader s.caller late s.client.net
    pub fits : Fits ch s.reader s.caller

  abbrev Holds : System ws → Type 0
  Holds s = saw s.caller ≡ true → Tracks s

  tracks :
      (x : Client ws) (r : ReaderAt) (k : CallerAt ws.Conn) (late : List SignalResponse)
      {net' : ws.Net}
      → x ≡ expected r k late net'
      → Fits ch r k
      → Tracks (at ws x r k)
  tracks x r k late h fits = record {
    late = late;
    client = h ∙ ap (expected r k late) (sym (ap (λ (y : Client ws). y.net) h));
    fits = fits;
  }

  serve-client :
      (x : Client ws) (k : CallerAt ws.Conn) (late : List SignalResponse) (res : SignalResponse)
      {net' : ws.Net}
      → x ≡ expected serving k late net'
      → handle_response ws res (read_response ws x).1
        ≡ expected serving k (late ++ res ∷ []) (read_response ws x).1.net
  serve-client x k late res h =
      let n = (read_response ws x).1.net in
      ap (handle_response ws res) (read_response-keeps ws x)
      ∙ handle_response_lem ws res (record x { net = n })
      ∙ ap
          (λ (y : Client ws). record y { net = n; delivered = y.delivered ++ runs y.installed res })
          h
      ∙ ap (λ l. record (expected serving k late n) { delivered = l })
          (append_assoc c.delivered _ _
            ∙ ap (λ l. c.delivered ++ (all_runs c.installed late ++ l))
                (sym (append-nil (runs c.installed res)))
            ∙ ap (λ l. c.delivered ++ l) (sym (all_runs-append c.installed late (res ∷ []))))

  close_conn-client :
      (o : Option ws.Conn) (x : Client ws) (r : ReaderAt) (b : Bool) (p q : Option ℕ)
      (late : List SignalResponse)
      → x ≡ expected r (loaded b p o) late x.net
      → (n : ws.Net) × (close_conn ws o x ≡ expected r (shut b q) late n)
  unfolding close_conn
  close_conn-client none x r b p q late h = (x.net, h)
  close_conn-client (some conn) x r b p q late h =
      (ws.close conn x.net, ap (λ (y : Client ws). record y { net = ws.close conn x.net }) h)

  -- No connection was stored while the reader has not reached its end.
  conn_at-stopped :
      (k : CallerAt ws.Conn) (o : Option ws.Conn) → Fits ch stopped k → conn_at k o new_conn ≡ o
  conn_at-stopped idle o f = refl
  conn_at-stopped (seen b) o f = refl
  conn_at-stopped (picked b p) o f = refl
  conn_at-stopped (loaded b p q) o f = refl
  conn_at-stopped (shut b p) o f = refl
  conn_at-stopped (waited b) o f = refl
  conn_at-stopped (stored b) o f = elim f [ ]

  Fits-moves :
      (r r' : ReaderAt) (k : CallerAt ws.Conn) → (IsPast r → IsPast r') → Fits ch r k → Fits ch r' k
  Fits-moves r r' idle h f = tt
  Fits-moves r r' (seen b) h f = tt
  Fits-moves r r' (picked b p) h f = f
  Fits-moves r r' (loaded b p q) h f = f
  Fits-moves r r' (shut b p) h f = f
  Fits-moves r r' (waited b) h f = h f
  Fits-moves r r' (stored b) h f = h f

  unset-client :
      (x : Client ws) (k : CallerAt ws.Conn) (late : List SignalResponse)
      → Fits ch stopped k
      → x ≡ expected stopped k late x.net
      → record x { conn = none } ≡ expected unset k late x.net
  unset-client x k late f h =
      ap (λ (y : Client ws). record y { conn = none }) h
      ∙ ap (λ o. record (expected unset k late x.net) { conn = o }) (sym (conn_at-stopped k none f))

  tell-client :
      (x : Client ws) (k : CallerAt ws.Conn) (late : List SignalResponse)
      → x ≡ expected signalled k late x.net
      → run_callback on_close "" x ≡ expected ended k late x.net
  tell-client x k late h =
      run_callback_lem ws on_close "" x
      ∙ ap
          (λ (y : Client ws). record y {
            delivered = y.delivered ++ runs_of y.installed (some on_close) "";
          })
          h
      ∙ ap (λ l. record (expected ended k late x.net) { delivered = l })
          (append_assoc c.delivered _ _)

  stop-client :
      (x : Client ws) (k : CallerAt ws.Conn) (late : List SignalResponse)
      → x ≡ expected serving k late x.net
      → record (read_response ws x).1 { is_started = false }
        ≡ expected stopped k late (read_response ws x).1.net
  stop-client x k late h =
      ap (λ (y : Client ws). record y { is_started = false }) (read_response-keeps ws x)
      ∙ ap (λ (y : Client ws). record y { net = (read_response ws x).1.net; is_started = false }) h

  waited-IsPast :
      (x : Client ws) (r : ReaderAt) (n : ℕ) (late : List SignalResponse)
      → Fresh ch c.closed_chs
      → x ≡ expected r (shut true (some n)) late x.net
      → some n ≡ some ch
      → IsClosed n x.closed_chs
      → IsPast r
  waited-IsPast x r n late fresh h e i = closed-IsPast r ch c.closed_chs fresh (
      subst (λ l. IsClosed ch l) (ap (λ (y : Client ws). y.closed_chs) h)
        (subst (λ m. IsClosed m x.closed_chs) (of_some e) i))

  -- A step keeps what is tracked, as long as Close saw that the reader runs.
  Step-Holds :
      {s t : System ws}
      → c.reader_closed_ch ≡ some ch
      → Fresh ch c.closed_chs
      → Step ws ch new_conn s t
      → Holds s
      → Holds t
  Step-Holds own fresh (serve x k {res} e) h q =
      let tr = h q in
      tracks (handle_response ws res (read_response ws x).1) serving k (tr.late ++ res ∷ [])
        (serve-client x k tr.late res tr.client) tr.fits
  Step-Holds own fresh (stop x k e) h q =
      let tr = h q in
      tracks (record (read_response ws x).1 { is_started = false }) stopped k tr.late
        (stop-client x k tr.late tr.client) (Fits-moves serving stopped k (λ f. f) tr.fits)
  Step-Holds own fresh (unset_conn x k) h q =
      let tr = h q in
      tracks (record x { conn = none }) unset k tr.late (unset-client x k tr.late tr.fits tr.client)
        (Fits-moves stopped unset k (λ f. f) tr.fits)
  Step-Holds own fresh (signal x k) h q =
      let tr = h q in
      tracks (record x { closed_chs = ch ∷ x.closed_chs }) signalled k tr.late
        (ap (λ (y : Client ws). record y { closed_chs = ch ∷ y.closed_chs }) tr.client)
        (Fits-moves unset signalled k (λ f. tt) tr.fits)
  Step-Holds own fresh (tell x k) h q =
      let tr = h q in
      tracks (run_callback on_close "" x) ended k tr.late (tell-client x k tr.late tr.client)
        (Fits-moves signalled ended k (λ f. f) tr.fits)
  Step-Holds own fresh (look x r) h q = let tr = h refl in tracks x r (seen _) tr.late tr.client tt
  Step-Holds own fresh (pick x r b) h q =
      let tr = h q in
      tracks x r (picked b _) tr.late tr.client
        (ap (λ (y : Client ws). y.reader_closed_ch) tr.client ∙ own)
  Step-Holds own fresh (load x r b o) h q =
      let tr = h q in tracks x r (loaded b o _) tr.late tr.client tr.fits
  Step-Holds own fresh (close_old x r b o conn) h q =
      let tr = h q in
      let (n, e) = close_conn-client conn x r b o o tr.late tr.client in
      tracks (close_conn ws conn x) r (shut b o) tr.late e tr.fits
  Step-Holds own fresh (pass x r o) h q = absurd cc
  Step-Holds own fresh (pass_nil x r) h q = let e = (h q).fits in absurd cc
  Step-Holds own fresh (wait x r n i) h q =
      let tr = h q in
      tracks x r (waited true) tr.late tr.client
        (waited-IsPast x r n tr.late fresh tr.client tr.fits i)
  Step-Holds own fresh (store x r b) h q =
      let tr = h q in
      tracks (record x { conn = some new_conn }) r (stored b) tr.late
        (ap (λ (y : Client ws). record y { conn = some new_conn }) tr.client) tr.fits

  -- Of a client whose reader serves, and holds the channel that the client holds.
  pub record Starts : Type 0 where
    pub started : c.is_started ≡ true
    pub own : c.reader_closed_ch ≡ some ch
    pub fresh : Fresh ch c.closed_chs

  pub Reach-Tracks :
      Starts → {s : System ws} → Reach ws ch new_conn c s → saw s.caller ≡ true → Tracks s
  Reach-Tracks w start q =
      tracks c serving idle []
        (ap (λ b. record c { is_started = b }) w.started
          ∙ ap (λ l. record c { is_started = true; delivered = l }) (sym (append-nil c.delivered)))
        tt
  Reach-Tracks w (later r st) q = Step-Holds w.own w.fresh st (Reach-Tracks w r) q
