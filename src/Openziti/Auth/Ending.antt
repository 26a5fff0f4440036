-- ===== src/Openziti/Auth/Ending.antt =====
-- How KeepAlive ends.
use mathlib.Core.Path.{subst}
use ziti_livekit_example.Prelude.{ℕ, zero, suc, ◌+◌, String, ◌≡◌, refl, ap, sym, ◌∙◌, arith}
use ziti_livekit_example.Outcome.{Error, err}
use ziti_livekit_example.Openziti.Platform.{Platform, World}
use ziti_livekit_example.Openziti.Auth.{
  Alive, Progress, looping, returned, keep_alive_tick, run_deferred, after_tick, keep_alive_loop,
  keep_alive,
}
use ziti_livekit_example.Openziti.Auth.Closing.{Holds, keep_alive-Holds}

zero-add : (n : ℕ) → zero + n ≡ n
zero-add n = omega arith

suc-add : (k n : ℕ) → suc k + n ≡ suc (k + n)
suc-add k n = omega arith

module _ (p : Platform) where
  keep_alive_loop-returned :
      (url : String) (n : ℕ) (w : World p) → keep_alive_loop p url n (returned w) ≡ returned w
  unfolding keep_alive_loop
  keep_alive_loop-returned url zero w = refl
  keep_alive_loop-returned url (suc n) w = refl

  keep_alive_loop-fails :
      (url : String) (n : ℕ) (s : Alive p) {e : Error}
      → (keep_alive_tick p url s).0 ≡ err e
      → keep_alive_loop p url (suc n) (looping s)
        ≡ returned
            (run_deferred p (keep_alive_tick p url s).1.deferred (keep_alive_tick p url s).1.world)
  unfolding keep_alive_loop after_tick
  keep_alive_loop-fails url n s h =
      ap (λ r. keep_alive_loop p url n (after_tick p r (keep_alive_tick p url s).1)) h
      ∙ keep_alive_loop-returned url n _

  -- Ticks can be taken in two parts.
  keep_alive_loop-add :
      (url : String) (k n : ℕ) (g : Progress p)
      → keep_alive_loop p url (k + n) g ≡ keep_alive_loop p url n (keep_alive_loop p url k g)
  unfolding keep_alive_loop
  keep_alive_loop-add url zero n g = ap (λ m. keep_alive_loop p url m g) (zero-add n)
  keep_alive_loop-add url (suc k) n (looping s) =
      ap (λ m. keep_alive_loop p url m (looping s)) (suc-add k n)
      ∙ keep_alive_loop-add url k n
          (after_tick p (keep_alive_tick p url s).0 (keep_alive_tick p url s).1)
  keep_alive_loop-add url (suc k) n (returned w) =
      ap (λ m. keep_alive_loop p url m (returned w)) (suc-add k n)
      ∙ sym (keep_alive_loop-returned url n w)

  -- Once a tick fails, KeepAlive returns, whatever the ticks after it would have given, and leaves as
  -- many bodies open as there were when it was started.
  pub keep_alive-returned :
      (url : String) (k n : ℕ) (w : World p) {s : Alive p} {e : Error}
      → keep_alive p url k w ≡ looping s
      → (keep_alive_tick p url s).0 ≡ err e
      → (w' : World p) × (keep_alive p url (k + suc n) w ≡ returned w')
        × (w'.open_bodies ≡ w.open_bodies)
  unfolding keep_alive
  keep_alive-returned url k n w {s} h fails =
      let t = (keep_alive_tick p url s).1 in
      let w' = run_deferred p t.deferred t.world in
      let ended : keep_alive p url (k + suc n) w ≡ returned w' =
        keep_alive_loop-add url k (suc n) (looping (record { world = w; deferred = 0 }))
        ∙ ap (keep_alive_loop p url (suc n)) h
        ∙ keep_alive_loop-fails url n s fails in
      (
        w',
        ended,
        subst (Holds p w.open_bodies (k + suc n)) ended (keep_alive-Holds p url (k + suc n) w),
      )
