-- ===== src/Text/Fold.antt =====
-- strings.EqualFold, and the relation that it decides.

use Prim.Native.String.{[], ◌∷◌}
use Prim.Native.Char.{Char, code}
use ziti_livekit_example.Prelude.{String, ◌≡◌, ◌⊎◌, inl, inr, refl, true, false, Bool-cases, arith}
use ziti_livekit_example.Text.{fold_case, equal_fold}

-- Two texts whose characters are equal under case folding, one by one.
pub data SameFold : String → String → Type 0 where
  same_end : SameFold [] []
  same_next :
      {c d : Char} {s t : String}
      → fold_case (code c) ≡ fold_case (code d)
      → SameFold s t
      → SameFold (c ∷ s) (d ∷ t)

SameFold-of : (s t : String) → equal_fold s t ≡ true → SameFold s t
unfolding equal_fold
SameFold-of [] [] h = same_end
SameFold-of [] (d ∷ t) h = cc
SameFold-of (c ∷ s) [] h = cc
SameFold-of (c ∷ s) (d ∷ t) h = same_next (ground arith) (SameFold-of s t (ground arith))

equal_fold-of : {s t : String} → SameFold s t → equal_fold s t ≡ true
unfolding equal_fold
equal_fold-of same_end = refl
equal_fold-of (same_next e r) = ground (arith, e, equal_fold-of r)

-- EqualFold's answer, and what it says of the texts.
pub equal_fold-cases :
    (s t : String)
    → ((equal_fold s t ≡ true) × SameFold s t) ⊎ ((equal_fold s t ≡ false) × ¬ SameFold s t)
equal_fold-cases s t = elim (Bool-cases (equal_fold s t)) [
  | inl y ↦ inl (y, SameFold-of s t y)
  | inr n ↦ inr (n, λ r. cc (equal_fold-of r))
]
