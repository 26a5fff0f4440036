-- ===== src/Text.antt =====
-- The functions of Go's `strings` that the program calls, over texts as lists of characters.
pub mod Fold
pub mod Trim
use Prim.Native.Char.{Char, code}
use Prim.Native.Nat.{ℕ, ◌-◌, ◌+◌}
use Prim.Native.String.{len, slice, [], ◌∷◌}
use text.Mathlib.Text.{find?, starts_with}
use mathlib.Core.Option.{none, some}
use ziti_livekit_example.Prelude.{
  ◌<>◌, String, Bool, true, false, ◌&&◌, ◌||◌, ◌==◌, leb, eqb, if◌then◌else◌,
}

-- strings.HasSuffix
unfoldable pub has_suffix : String → String → Bool
has_suffix s t = leb (len t) (len s) && slice s (len s - len t) (len s) == t

-- unicode.IsSpace, of a code point
unfoldable pub is_space : ℕ → Bool
is_space c =
    (leb 9 c && leb c 13)
    || eqb c 32
    || eqb c 0x85
    || eqb c 0xA0
    || eqb c 0x1680
    || (leb 0x2000 c && leb c 0x200a)
    || eqb c 0x2028
    || eqb c 0x2029
    || eqb c 0x202f
    || eqb c 0x205f
    || eqb c 0x3000

-- strings.TrimLeftFunc(s, unicode.IsSpace)
unfoldable pub trim_left : String → String
trim_left [] = []
trim_left (c ∷ s) = let rest = trim_left s in if is_space (code c) then rest else c ∷ s

-- A character in front of a text that has no space at its end.
unfoldable pub keep_right : Char → String → String
keep_right c [] = if is_space (code c) then [] else c ∷ []
keep_right c (d ∷ s) = c ∷ d ∷ s

-- strings.TrimRightFunc(s, unicode.IsSpace)
unfoldable pub trim_right : String → String
unfolding keep_right
trim_right [] = []
trim_right (c ∷ s) = keep_right c (trim_right s)

-- strings.TrimSpace
unfoldable pub trim_space : String → String
unfolding trim_left trim_right
trim_space s = trim_right (trim_left s)

-- strings.Split(s, ":")[0]
unfoldable pub before_colon : String → String
before_colon [] = []
before_colon (c ∷ s) = let rest = before_colon s in if eqb (code c) b':' then [] else c ∷ rest

-- The least character that is equal under case folding to an ASCII letter; others are left alone.
-- U+017F folds to s, and U+212A to k.
unfoldable pub fold_case : ℕ → ℕ
fold_case c =
    if leb 65 c && leb c 90
    then c + 32
    else if eqb c 0x017f
    then b's'
    else if eqb c 0x212a
    then b'k'
    else c

-- strings.EqualFold, where one of the texts is ASCII
unfoldable pub equal_fold : String → String → Bool
unfolding fold_case
equal_fold [] [] = true
equal_fold [] (d ∷ t) = false
equal_fold (c ∷ s) [] = false
equal_fold (c ∷ s) (d ∷ t) = eqb (fold_case (code c)) (fold_case (code d)) && equal_fold s t

-- strings.Contains
unfoldable pub contains : String → String → Bool
contains s t = elim (find? s t) [ some i ↦ true | none ↦ false ]

-- strings.Replace(s, old, new, 1) of a text that begins with `old`; others are left alone
unfoldable pub replace_prefix : String → String → String → String
replace_prefix s old new = if starts_with s old then new <> slice s (len old) (len s) else s
