-- ===== src/Livekit/Rounds.antt =====
-- The loop of the programs' main functions: a run that fails is tried again after a second.
pub mod Measures
use ziti_livekit_example.Prelude.{ℕ, zero, suc}
use ziti_livekit_example.Outcome.{Result, ok, err, panic, Action}

-- A program that goes on, or that a panic has ended.
pub data Process (S : Type 0) : Type 0 where
  going crashed : S → Process S

abbrev pub state : {S : Type 0} → Process S → S
state (going s) = s
state (crashed s) = s

abbrev pub after_run : {S : Type 0} → Result (Unit {0}) → S → Process S
after_run (ok u) s = going s
after_run (err e) s = going s
after_run (panic t) s = crashed s

-- for { run(); time.Sleep(…) }, for a number of rounds
unfoldable pub rounds : {S : Type 0} → Action S (Unit {0}) → ℕ → Process S → Process S
rounds run zero q = q
rounds run (suc n) (crashed s) = crashed s
rounds run (suc n) (going s) = rounds run n (after_run (run s).0 (run s).1)
