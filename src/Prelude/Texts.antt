-- ===== src/Prelude/Texts.antt =====
-- The test of two texts for equality, with what it says.
use Prim.Native.String.{String}
use mathlib.Core.Path.{◌≡◌}
use mathlib.Core.Logic.{◌≢◌, ◌⊎◌, inl, inr}
use mathlib.Core.Bool.{false}
use native.Mathlib.Omega.{arith}
use text.Mathlib.Text.{◌==◌}
use text.Mathlib.TextEquality.{eq_iff}
use ziti_livekit_example.Prelude.Tests.{Bool-cases}

pub Text-cases : (s t : String) → (s ≡ t) ⊎ ((s ≢ t) × ((s == t) ≡ false))
Text-cases s t = elim (Bool-cases (s == t)) [
  | inl e ↦ inl ((eq_iff s t).0 e)
  | inr n ↦ inr (λ q. ground (arith, eq_iff s t), n)
]
