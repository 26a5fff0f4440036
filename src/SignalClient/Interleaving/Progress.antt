-- ===== src/SignalClient/Interleaving/Progress.antt =====
-- No order of the steps is stuck: Close does not wait for a channel that is never closed.
use mathlib.Core.Path.{subst}
use ziti_livekit_example.Prelude.{
  ℕ, Bool, true, false, Option, none, some, List, ◌≡◌, refl, ap, sym, ◌⊎◌, inl, inr,
}
use ziti_livekit_example.Outcome.{Error, ok, err}
use ziti_livekit_example.SignalClient.Types.{SignalResponse, Websocket, Client}
use ziti_livekit_example.SignalClient.Reader.{read_response}
use ziti_livekit_example.SignalClient.Interleaving.{
  ReaderAt, serving, stopped, unset, signalled, ended, CallerAt, idle, seen, picked, loaded, shut,
  waited, stored, System, IsClosed, at, Step, serve, stop, unset_conn, signal, tell, look, pick,
  load, close_old, pass, pass_nil, wait, store, Reach,
}
use ziti_livekit_example.SignalClient.Interleaving.Invariant.{Tracks, Starts, Reach-Tracks}
use ziti_livekit_example.SignalClient.Interleaving.Views.{saw}

module _ (ws : Websocket) where
  -- A read gives a response or an error, and neither nil nor a panic.
  abbrev pub Reads : Type 0
  Reads =
      (x : Client ws)
      → ((res : SignalResponse) × ((read_response ws x).0 ≡ ok (some res)))
        ⊎ ((e : Error) × ((read_response ws x).0 ≡ err e))

  -- Both have taken their last step.
  abbrev pub IsDone : ReaderAt → CallerAt ws.Conn → Type 0
  IsDone ended (stored b) = Unit {0}
  IsDone _ _ = ⊥

  module _ (ch : ℕ) (new_conn : ws.Conn) where
    abbrev pub Moves : System ws → Type 0
    Moves s = IsDone s.reader s.caller ⊎ ((t : System ws) × Step ws ch new_conn s t)

    waiting-Moves :
        (x : Client ws) (b : Bool) (o : Option ℕ)
        → (b ≡ true → (o ≡ some ch) × IsClosed ch x.closed_chs)
        → Moves (at ws x ended (shut b o))
    waiting-Moves x false o h = inr (_, pass x ended o)
    waiting-Moves x true none h = inr (_, pass_nil x ended)
    waiting-Moves x true (some n) h =
        let (e, i) = h refl in
        inr (_, wait x ended n (subst (λ o. IsClosed_in o x.closed_chs) (sym e) i))
      where
        IsClosed_in : Option ℕ → List ℕ → Type 0
        IsClosed_in none chs = ⊥
        IsClosed_in (some n) chs = IsClosed n chs

    moves :
        (c x : Client ws) (r : ReaderAt) (k : CallerAt ws.Conn)
        → Reads
        → (saw k ≡ true → Tracks ws ch new_conn c (at ws x r k))
        → Moves (at ws x r k)
    moves c x serving k reads h = elim (reads x) [
      | inl (res, e) ↦ inr (_, serve x k e)
      | inr (e, f) ↦ inr (_, stop x k f)
    ]
    moves c x stopped k reads h = inr (_, unset_conn x k)
    moves c x unset k reads h = inr (_, signal x k)
    moves c x signalled k reads h = inr (_, tell x k)
    moves c x ended idle reads h = inr (_, look x ended)
    moves c x ended (seen b) reads h = inr (_, pick x ended b)
    moves c x ended (picked b o) reads h = inr (_, load x ended b o)
    moves c x ended (loaded b o conn) reads h = inr (_, close_old x ended b o conn)
    moves c x ended (shut b o) reads h = waiting-Moves x b o (λ q.
        let tr = h q in
        (
          tr.fits,
          subst (λ chs. IsClosed ch chs) (sym (ap (λ (y : Client ws). y.closed_chs) tr.client))
              (inl refl),
        ))
    moves c x ended (waited b) reads h = inr (_, store x ended b)
    moves c x ended (stored b) reads h = inl tt

    -- In every reachable state, either the reader or the call of connect can take a step, until both have
    -- taken their last one, if every read gives a response or an error.
    pub connect-Moves :
        (c : Client ws) {s : System ws}
        → Starts ws ch new_conn c
        → Reads
        → Reach ws ch new_conn c s
        → Moves s
    connect-Moves c {s} w reads r =
        moves c s.client s.reader s.caller reads (Reach-Tracks ws ch new_conn c w r)
