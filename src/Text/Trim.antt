-- ===== src/Text/Trim.antt =====
-- Laws of `strings.HasSuffix` and `strings.TrimSpace` at a text with a known end.
use Prim.Native.Char.{Char, code}
use Prim.Native.Nat.{◌-◌}
use Prim.Native.String.{len, slice, [], ◌∷◌}
use Prim.Native.String.append
use text.Mathlib.TextPositions.{len-append, slice-append_right, slice-append_left}
use ziti_livekit_example.Prelude.{
  ◌+◌, String, ◌<>◌, true, false, ◌≡◌, ◌≢◌, refl, ap, ◌==◌, arith, eq_refl, eq_iff, Bool-cases, inl,
  inr,
}
use ziti_livekit_example.Text.{has_suffix, is_space, trim_left, keep_right, trim_right, trim_space}

-- The end of a text is its suffix.
slice_end : (s t : String) → slice (s <> t) (len (s <> t) - len t) (len (s <> t)) ≡ t
slice_end s t =
    let e : len s + len t - len t ≡ len s = omega arith in
    rw (len-append, e) (slice-append_right s t)

pub has_suffix-append : (s t : String) → has_suffix (s <> t) t ≡ true
unfolding has_suffix
has_suffix-append s t = rw slice_end (ground (arith, len-append s t, eq_refl t))

-- A text that ends in `u`, of which `t` is no shorter than the end compared, has that suffix only
-- if `t` is it.
pub has_suffix-append_ne :
    (s t u : String) → len t ≡ len u → (t == u) ≡ false → has_suffix (s <> t) u ≡ false
unfolding has_suffix
has_suffix-append_ne s t u e n = rw (← e, slice_end, n) (ground arith)

-- What is left in front of a suffix.
pub slice-suffix : (s t : String) → slice (s <> t) 0 (len (s <> t) - len t) ≡ s
slice-suffix s t =
    let e : len s + len t - len t ≡ len s = omega arith in
    rw (len-append, e) (slice-append_left s t)

-- A character that is no space, in front of a text.
trim_left-append :
    (s : String) (c : Char) (t : String)
    → is_space (code c) ≡ false
    → trim_left (s <> (c ∷ t)) ≡ trim_left s <> (c ∷ t)
unfolding trim_left
trim_left-append [] c t h = rw (append.nil, h) refl
trim_left-append (d ∷ s) c t h = rw append.cons (elim (Bool-cases (is_space (code d))) [
  | inl e ↦ rw e (trim_left-append s c t h)
  | inr n ↦ rw n (rw append.cons)
])

keep_right-append :
    (d : Char) (s : String) (c : Char) (t : String)
    → keep_right d (s <> (c ∷ t)) ≡ d ∷ (s <> (c ∷ t))
unfolding keep_right
keep_right-append d [] c t = rw append.nil refl
keep_right-append d (e ∷ s) c t = rw append.cons refl

trim_right-append :
    (s : String) (c : Char) (t : String)
    → trim_right (c ∷ t) ≡ c ∷ t
    → trim_right (s <> (c ∷ t)) ≡ s <> (c ∷ t)
unfolding trim_right
trim_right-append [] c t h = rw append.nil h
trim_right-append (d ∷ s) c t h =
    rw append.cons (rw (trim_right-append s c t h) (keep_right-append d s c t))

-- An end without spaces stays, and the rest is trimmed at its beginning.
pub trim_space-append :
    (s : String) (c : Char) (t : String)
    → is_space (code c) ≡ false
    → trim_right (c ∷ t) ≡ c ∷ t
    → trim_space (s <> (c ∷ t)) ≡ trim_left s <> (c ∷ t)
unfolding trim_space
trim_space-append s c t h k = rw (trim_left-append s c t h) (trim_right-append (trim_left s) c t k)

-- Texts with one beginning and ends of different lengths differ.
pub append-ne_of_len : (s t u : String) → len t ≢ len u → ((s <> t) == (s <> u)) ≡ false
append-ne_of_len s t u h = elim (Bool-cases ((s <> t) == (s <> u))) [
  | inl e ↦
      absurd
        (omega (arith, h, ap len ((eq_iff (s <> t) (s <> u)).0 e), len-append s t, len-append s u))
  | inr n ↦ n
]
