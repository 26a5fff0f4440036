-- ===== src/SignalClient/Connect/Lifecycle.antt =====
-- Starting, closing and reconnecting: which reader runs, and what it is left.
use mathlib.Core.Path.{subst}
use mathlib.Core.List.{Memᴰ}
use ziti_livekit_example.Prelude.{
  ℕ, ◌+◌, ◌<◌, ◌≢◌, String, ◌≡◌, refl, ap, sym, ◌∙◌, Bool, true, false, Bool-cases, inl, inr,
  Option, none, some, List, [], ◌∷◌, ◌++◌, arith,
}
use ziti_livekit_example.SignalClient.Types.{
  SignalResponse, Callback, on_close, Websocket, Client, run_callback, new_signal_client,
}
use ziti_livekit_example.SignalClient.Reader.{start, end_worker, handle_all, handle_response}
use ziti_livekit_example.SignalClient.Reader.Dispatch.{
  all_runs, run_callback_lem, handle_response_lem, handle_all_lem,
}
use ziti_livekit_example.SignalClient.Connect.{wait_reader, close_conn, late_responses, close}

abbrev pub AllBelow : ℕ → List ℕ → Type 0
AllBelow n [] = Unit {0}
AllBelow n (ch ∷ chs) = (ch < n) × AllBelow n chs

abbrev pub Fresh : ℕ → List ℕ → Type 0
Fresh ch [] = Unit {0}
Fresh ch (d ∷ ds) = (ch ≢ d) × Fresh ch ds

abbrev pub Distinct : List ℕ → Type 0
Distinct [] = Unit {0}
Distinct (ch ∷ chs) = Fresh ch chs × Distinct chs

-- A reader that runs has a channel that was given out and is not closed.
abbrev pub Running : ℕ → List ℕ → Bool → Option ℕ → Type 0
Running n closed false ch = Unit {0}
Running n closed true none = ⊥
Running n closed true (some ch) = (ch < n) × Fresh ch closed

-- The reader that ran, if one did, has closed its channel.
abbrev pub Ended : Bool → Option ℕ → List ℕ → Type 0
Ended false ch closed = Unit {0}
Ended true none closed = Unit {0}
Ended true (some ch) closed = Memᴰ ch closed

AllBelow-suc : (n : ℕ) (chs : List ℕ) → AllBelow n chs → AllBelow (n + 1) chs
AllBelow-suc n [] h = tt
AllBelow-suc n (ch ∷ chs) (h, k) = (omega arith, AllBelow-suc n chs k)

Fresh-of : (n : ℕ) (chs : List ℕ) → AllBelow n chs → Fresh n chs
Fresh-of n [] h = tt
Fresh-of n (ch ∷ chs) (h, k) = ((λ q. omega arith), Fresh-of n chs k)

module _ (ws : Websocket) where
  -- The channels that readers closed were given out, none was closed twice, and a client that says a
  -- reader runs holds the open channel of one.
  pub record IsWell (c : Client ws) : Type 0 where
    pub below : AllBelow c.readers c.closed_chs
    pub distinct : Distinct c.closed_chs
    pub running : Running c.readers c.closed_chs c.is_started c.reader_closed_ch

  -- A new client is in order.
  pub new_signal_client-IsWell :
      (net : ws.Net) (set : Callback → Bool) → IsWell (new_signal_client net set)
  unfolding new_signal_client
  new_signal_client-IsWell net set = record { below = tt; distinct = tt; running = tt }

  -- Start keeps that.
  pub start-IsWell : (c : Client ws) → IsWell c → IsWell (start ws c)
  unfolding start
  start-IsWell c w = elim (Bool-cases c.is_started) [
    | inl t ↦ let same : start ws c ≡ c = simp t in subst IsWell (sym same) w
    | inr f ↦
        let started : start ws c ≡ record c {
          is_started = true;
          reader_closed_ch = some c.readers;
          readers = c.readers + 1;
        } =
          simp f in
        subst IsWell (sym started) (record {
          below = AllBelow-suc c.readers c.closed_chs w.below;
          distinct = w.distinct;
          running = (omega arith, Fresh-of c.readers c.closed_chs w.below);
        })
  ]

  handle_all-IsWell :
      (rs : List SignalResponse) (c : Client ws) → IsWell c → IsWell (handle_all ws rs c)
  handle_all-IsWell rs c w =
      subst IsWell (sym (handle_all_lem ws rs c))
        (record { below = w.below; distinct = w.distinct; running = w.running })

  pub handle_response-IsWell :
      (res : SignalResponse) (c : Client ws) → IsWell c → IsWell (handle_response ws res c)
  handle_response-IsWell res c w =
      subst IsWell (sym (handle_response_lem ws res c))
        (record { below = w.below; distinct = w.distinct; running = w.running })

  run_callback-IsWell :
      (cb : Callback) (payload : String) (c : Client ws)
      → IsWell c
      → IsWell (run_callback cb payload c)
  run_callback-IsWell cb payload c w =
      subst IsWell (sym (run_callback_lem ws cb payload c))
        (record { below = w.below; distinct = w.distinct; running = w.running })

  -- The end of the reader that runs.
  pub end_worker-IsWell :
      (ch : ℕ) (c : Client ws)
      → IsWell c
      → ch < c.readers
      → Fresh ch c.closed_chs
      → IsWell (end_worker ws ch c)
  unfolding end_worker
  end_worker-IsWell ch c w h k =
      run_callback-IsWell on_close ""
        (record c { is_started = false; conn = none; closed_chs = ch ∷ c.closed_chs })
        (record { below = (h, w.below); distinct = (k, w.distinct); running = tt })

  pub is_started-end_worker : (ch : ℕ) (c : Client ws) → (end_worker ws ch c).is_started ≡ false
  unfolding end_worker
  is_started-end_worker ch c =
      ap (λ (x : Client ws). x.is_started)
        (run_callback_lem ws on_close ""
          (record c { is_started = false; conn = none; closed_chs = ch ∷ c.closed_chs }))

  -- A client in order, of which no reader runs.
  abbrev pub IsStopped : Client ws → Type 0
  IsStopped c = IsWell c × (c.is_started ≡ false)

  end_running-IsStopped :
      (ch : ℕ) (late : List SignalResponse) (c : Client ws)
      → IsWell c
      → ch < c.readers
      → Fresh ch c.closed_chs
      → IsStopped (end_worker ws ch (handle_all ws late c))
  end_running-IsStopped ch late c w h k =
      let c1 = record c { delivered = c.delivered ++ all_runs c.installed late } in
      let w1 : IsWell c1 = record { below = w.below; distinct = w.distinct; running = w.running } in
      rw (handle_all_lem ws late c) (end_worker-IsWell ch c1 w1 h k, is_started-end_worker ch c1)

  wait_reader-IsStopped :
      (b : Bool) (o : Option ℕ) (late : List SignalResponse) (c : Client ws)
      → c.is_started ≡ b
      → IsWell c
      → Running c.readers c.closed_chs b o
      → IsStopped (wait_reader ws b o late c)
  unfolding wait_reader
  wait_reader-IsStopped true (some ch) late c e w (h, k) = end_running-IsStopped ch late c w h k
  wait_reader-IsStopped true none late c e w r = elim r [ ]
  wait_reader-IsStopped false o late c e w r = (w, e)

  closed_chs-end_worker :
      (ch : ℕ) (late : List SignalResponse) (c : Client ws)
      → (end_worker ws ch (handle_all ws late c)).closed_chs ≡ ch ∷ c.closed_chs
  unfolding end_worker
  closed_chs-end_worker ch late c =
      let d = handle_all ws late c in
      ap (λ (x : Client ws). x.closed_chs)
        (run_callback_lem ws on_close ""
          (record d { is_started = false; conn = none; closed_chs = ch ∷ d.closed_chs }))
      ∙ ap (λ (x : Client ws). ch ∷ x.closed_chs) (handle_all_lem ws late c)

  wait_reader-Ended :
      (b : Bool) (o : Option ℕ) (late : List SignalResponse) (c : Client ws)
      → Ended b o (wait_reader ws b o late c).closed_chs
  unfolding wait_reader
  wait_reader-Ended true (some ch) late c = rw (closed_chs-end_worker ch late c) (Memᴰ.head refl)
  wait_reader-Ended true none late c = tt
  wait_reader-Ended false o late c = tt

  -- After Close, the reader that ran has closed its channel.
  pub close-Ended : (c : Client ws) → Ended c.is_started c.reader_closed_ch (close ws c).closed_chs
  unfolding close
  close-Ended c =
      wait_reader-Ended c.is_started c.reader_closed_ch (late_responses ws c.conn c.net)
        (close_conn ws c.conn c)

  close_conn-IsWell : (o : Option ws.Conn) (c : Client ws) → IsWell c → IsWell (close_conn ws o c)
  unfolding close_conn
  close_conn-IsWell none c w = w
  close_conn-IsWell (some conn) c w = record {
    below = w.below;
    distinct = w.distinct;
    running = w.running;
  }

  pub close_conn-keeps :
      (o : Option ws.Conn) (c : Client ws)
      → close_conn ws o c ≡ record c { net = (close_conn ws o c).net }
  unfolding close_conn
  close_conn-keeps none c = refl
  close_conn-keeps (some conn) c = refl

  -- Close of a client whose channels are in order keeps them so, closing none twice, and no reader
  -- runs when it returns.
  pub close-IsStopped : (c : Client ws) → IsWell c → IsStopped (close ws c)
  unfolding close
  close-IsStopped c w = rw (close_conn-keeps c.conn c) (
      wait_reader-IsStopped c.is_started c.reader_closed_ch (late_responses ws c.conn c.net)
        (record c { net = (close_conn ws c.conn c).net }) refl
        (record { below = w.below; distinct = w.distinct; running = w.running }) w.running)
