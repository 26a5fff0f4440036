-- ===== src/Openziti/Auth/Closing.antt =====
-- The reply bodies that KeepAlive holds open.
use native.Mathlib.Nat.{zero-add}
use ziti_livekit_example.Prelude.{ℕ, zero, suc, ◌+◌, ◌-◌, String, ◌≡◌, refl, arith}
use ziti_livekit_example.Outcome.{Result, ok, err, panic, ◌>>=◌}
use ziti_livekit_example.Openziti.Platform.{Platform, World, session_request, client_do, close_body}
use ziti_livekit_example.Openziti.Auth.{
  Alive, Progress, looping, returned, keep_alive_tick, run_deferred, after_tick, keep_alive_loop,
  keep_alive,
}

suc-add-suc : (k n : ℕ) → k + 1 + n ≡ k + suc n
suc-add-suc k n = omega arith

module _ (p : Platform) where
  -- The bodies that are open beyond those the goroutine has deferred to close.
  abbrev Balanced : ℕ → Alive p → Type 0
  Balanced n s = s.world.open_bodies ≡ n + s.deferred

  keep_alive_tick-Balanced :
      (url : String) (n : ℕ) (s : Alive p) → Balanced n s → Balanced n (keep_alive_tick p url s).1
  unfolding keep_alive_tick session_request client_do ◌>>=◌
  keep_alive_tick-Balanced url n s h = ground arith

  keep_alive_tick-deferred :
      (url : String) (s : Alive p) {u : Unit {0}}
      → (keep_alive_tick p url s).0 ≡ ok u
      → (keep_alive_tick p url s).1.deferred ≡ s.deferred + 1
  unfolding keep_alive_tick session_request client_do ◌>>=◌
  keep_alive_tick-deferred url s h = ground arith

  open_bodies-run_deferred :
      (k : ℕ) (w : World p) → (run_deferred p k w).open_bodies ≡ w.open_bodies - k
  unfolding run_deferred
  open_bodies-run_deferred zero w = omega arith
  open_bodies-run_deferred (suc k) w = omega (arith, open_bodies-run_deferred k (close_body p w))

  -- A goroutine that is still looping after so many ticks holds a body for each of them, beyond n;
  -- one that has returned holds none.
  abbrev pub Holds : ℕ → ℕ → Progress p → Type 0
  Holds n ticks (looping s) = s.world.open_bodies ≡ n + ticks
  Holds n ticks (returned w) = w.open_bodies ≡ n

  -- The same, with the deferred calls counted.
  abbrev Counted : ℕ → ℕ → Progress p → Type 0
  Counted n ticks (looping s) = (s.world.open_bodies ≡ n + s.deferred) × (s.deferred ≡ ticks)
  Counted n ticks (returned w) = w.open_bodies ≡ n

  after_tick-Counted :
      (n k : ℕ) (r : Result (Unit {0})) (s : Alive p)
      → Balanced n s
      → (r ≡ ok tt → s.deferred ≡ k)
      → Counted n k (after_tick p r s)
  unfolding after_tick
  after_tick-Counted n k (ok tt) s h d = (h, d refl)
  after_tick-Counted n k (err e) s h d = omega (arith, open_bodies-run_deferred s.deferred s.world)
  after_tick-Counted n k (panic t) s h d =
      omega (arith, open_bodies-run_deferred s.deferred s.world)

  keep_alive_loop-Counted :
      (url : String) (n ticks k : ℕ) (g : Progress p)
      → Counted n k g
      → Counted n (k + ticks) (keep_alive_loop p url ticks g)
  unfolding keep_alive_loop
  keep_alive_loop-Counted url n zero k (looping s) h = (h.0, omega arith)
  keep_alive_loop-Counted url n zero k (returned w) h = h
  keep_alive_loop-Counted url n (suc ticks) k (looping s) h = rw (← suc-add-suc k ticks) (
      keep_alive_loop-Counted url n ticks (k + 1)
        (after_tick p (keep_alive_tick p url s).0 (keep_alive_tick p url s).1)
        (after_tick-Counted n (k + 1) (keep_alive_tick p url s).0 (keep_alive_tick p url s).1
          (keep_alive_tick-Balanced url n s h.0)
          (λ e. omega (arith, keep_alive_tick-deferred url s e))))
  keep_alive_loop-Counted url n (suc ticks) k (returned w) h = h

  Counted-Holds : (n k : ℕ) (g : Progress p) → Counted n k g → Holds n k g
  Counted-Holds n k (looping s) h = omega arith
  Counted-Holds n k (returned w) h = h

  -- While KeepAlive's ticks succeed, the bodies of all their replies stay open: one for each tick. Once
  -- it has returned, none of them is open.
  pub keep_alive-Holds :
      (url : String) (ticks : ℕ) (w : World p)
      → Holds w.open_bodies ticks (keep_alive p url ticks w)
  unfolding keep_alive
  keep_alive-Holds url ticks w = Counted-Holds w.open_bodies ticks _ (
      rw zero-add at (
        keep_alive_loop-Counted url w.open_bodies ticks 0
          (looping (record { world = w; deferred = 0 })) (omega arith, refl)))
