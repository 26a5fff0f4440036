-- ===== src/Livekit/Rounds/Measures.antt =====
-- What a number of rounds does to a count that each run keeps, or raises by an amount.
use ziti_livekit_example.Prelude.{ℕ, zero, suc, ◌+◌, ◌≡◌, refl, ◌∙◌, arith}
use ziti_livekit_example.Outcome.{Result, ok, err, panic, Action}
use ziti_livekit_example.Livekit.Rounds.{Process, going, crashed, state, after_run, rounds}

module _ {S : Type 0} (run : Action S (Unit {0})) where
  -- What the runs of a number of rounds add up to, where each adds an amount.
  abbrev pub total : (S → ℕ) → ℕ → Process S → ℕ
  total g zero q = 0
  total g (suc n) (crashed s) = 0
  total g (suc n) (going s) = g s + total g n (after_run (run s).0 (run s).1)

module _ {S : Type 0} (run : Action S (Unit {0})) (f : S → ℕ) where
  after_run-state : (r : Result (Unit {0})) (s : S) → f (state (after_run r s)) ≡ f s
  after_run-state (ok u) s = refl
  after_run-state (err e) s = refl
  after_run-state (panic t) s = refl

  pub rounds-keeps :
      ((s : S) → f (run s).1 ≡ f s)
      → (n : ℕ) (q : Process S) → f (state (rounds run n q)) ≡ f (state q)
  unfolding rounds
  rounds-keeps h zero q = refl
  rounds-keeps h (suc n) (crashed s) = refl
  rounds-keeps h (suc n) (going s) =
      rounds-keeps h n (after_run (run s).0 (run s).1) ∙ after_run-state (run s).0 (run s).1 ∙ h s

  pub rounds-total :
      (g : S → ℕ)
      → ((s : S) → f (run s).1 ≡ f s + g s)
      → (n : ℕ) (q : Process S) → f (state (rounds run n q)) ≡ f (state q) + total run g n q
  unfolding rounds
  rounds-total g h zero q = omega arith
  rounds-total g h (suc n) (crashed s) = omega arith
  rounds-total g h (suc n) (going s) =
      let here = h s in
      let later = rounds-total g h n (after_run (run s).0 (run s).1) in
      let same = after_run-state (run s).0 (run s).1 in omega arith
