-- ===== src/Websocket/Url/Hosts.antt =====
-- What hostPortNoPort makes of a host with a port, and of one without.
use Prim.Native.Char.{Char, code, len_utf8}
use Prim.Native.String.append
use Prim.Native.String.len
use Prim.Native.String.{len, slice, [], ◌∷◌}
use native.Mathlib.Nat.{add_assoc}
use text.Mathlib.TextPositions.{len_utf8-pos, slice-append_left}
use ziti_livekit_example.Prelude.{
  ℕ, ◌+◌, ◌-◌, ◌≤◌, String, ◌<>◌, ◌≡◌, ◌≢◌, refl, ◌∙◌, sym, ap, true, false, ltb, eqb,
  if◌then◌else◌, arith,
}
use ziti_livekit_example.Websocket.Types.{Url}
use ziti_livekit_example.Websocket.Url.{
  last_index, last_colon, last_bracket, default_port, host_port_no_port,
}

-- A character does not occur in a text.
abbrev pub Lacks : ℕ → String → Type 0
Lacks c [] = Unit {0}
Lacks c (d ∷ s) = (code d ≢ c) × Lacks c s

add-zero : (n : ℕ) → n ≡ n + 0
add-zero n = omega arith

last_index_of_Lacks :
    (c at : ℕ) (s : String) (found : ℕ) → Lacks c s → last_index c at s found ≡ found
unfolding last_index
last_index_of_Lacks c at [] found h = refl
last_index_of_Lacks c at (d ∷ s) found (h, k) =
    ground (arith, last_index_of_Lacks c (at + len_utf8 d) s found k)

-- The same search, of a text whose beginning was searched.
last_index-append :
    (c at : ℕ) (s t : String) (found : ℕ)
    → last_index c at (s <> t) found ≡ last_index c (at + len s) t (last_index c at s found)
unfolding last_index
last_index-append c at [] t found =
    rw append.nil (ap (λ n. last_index c n t found) (add-zero at ∙ ap (λ k. at + k) (sym len.nil)))
last_index-append c at (d ∷ s) t found =
    rw (append.cons, len.cons)
      (last_index-append c (at + len_utf8 d) s t (if eqb (code d) c then at + 1 else found)
        ∙ ap
            (λ n.
              last_index c n t
                (last_index c (at + len_utf8 d) s (if eqb (code d) c then at + 1 else found)))
            (add_assoc at (len_utf8 d) (len s)))

last_index-le :
    (c at : ℕ) (s : String) (found : ℕ) → found ≤ at → last_index c at s found ≤ at + len s
unfolding last_index
last_index-le c at [] found h = rw len.nil (omega arith)
last_index-le c at (d ∷ s) found h =
    let (k, wide) = len_utf8-pos d in
    let small : (if eqb (code d) c then at + 1 else found) ≤ at + len_utf8 d = ground arith in
    rw len.cons (omega (arith, last_index-le c (at + len_utf8 d) s _ small))

-- The last place of a character in a text that has it, and not after that.
last_index_at :
    (c : ℕ) (s : String) (d : Char) (t : String)
    → code d ≡ c
    → Lacks c t
    → last_index c 0 (s <> (d ∷ t)) 0 ≡ len s + 1
unfolding last_index
last_index_at c s d t e h =
    let tested : eqb (code d) c ≡ true = ground arith in
    last_index-append c 0 s (d ∷ t) 0
    ∙ rw tested (last_index_of_Lacks c (0 + len s + len_utf8 d) t (0 + len s + 1) h ∙ omega arith)

-- Of a text that lacks a character from some place on, the last place of it is no further.
last_index_before : (c : ℕ) (s t : String) → Lacks c t → last_index c 0 (s <> t) 0 ≤ len s
last_index_before c s t h =
    rw (last_index-append c 0 s t 0, last_index_of_Lacks c (0 + len s) t (last_index c 0 s 0) h)
      (omega (arith, last_index-le c 0 s 0 (omega arith)))

-- How a host is taken apart: behind its last colon stands a port, unless there is none, or it belongs to
-- an address in brackets.
pub data Splits (u : Url) : String × String → Type 0 where
  with_port :
      (name port : String)
      → u.host ≡ name <> (":" <> port)
      → Lacks b':' port
      → Lacks b']' port
      → Splits u (u.host, name)
  without_port : Lacks b':' u.host → Splits u (u.host <> default_port u.scheme, u.host)
  bracketed :
      (address : String)
      → u.host ≡ address <> "]"
      → Splits u (u.host <> default_port u.scheme, u.host)

abbrev colon : Char
colon = ":"

abbrev bracket : Char
bracket = "]"

has_port :
    (name port : String)
    → Lacks b':' port
    → Lacks b']' port
    → (last_colon (name <> (":" <> port)) ≡ len name + 1)
      × (last_bracket (name <> (":" <> port)) ≤ len name)
has_port name port h k =
    let split : (":" <> port) ≡ (colon ∷ port) = append.cons colon [] port ∙ rw append.nil in
    rw split (
      last_index_at b':' name colon port refl h,
      last_index_before b']' name (colon ∷ port) ((λ q. omega arith), k),
    )

ends_bracketed :
    (address : String)
    → (last_bracket (address <> "]") ≡ len address + 1)
      × (last_colon (address <> "]") ≤ len address)
ends_bracketed address = (
  last_index_at b']' address bracket [] refl tt,
  last_index_before b':' address (bracket ∷ []) ((λ q. omega arith), tt),
)

-- hostPortNoPort takes a host apart so: a port that stands behind the last colon, outside of brackets,
-- is left off and not added, and the port of the scheme is added where there is none.
pub host_port_no_port-Splits :
    (u : Url) {r : String × String} → Splits u r → host_port_no_port u ≡ r
unfolding host_port_no_port
host_port_no_port-Splits u (with_port name port e h k) =
    let (at, before) = has_port name port h k in
    let tested : ltb (last_bracket u.host) (last_colon u.host) ≡ true =
      rw e (rw at (ground (arith, before))) in
    let colon_at : last_colon u.host ≡ len name + 1 = ap last_colon e ∙ at in
    let front : slice u.host 0 (last_colon u.host - 1) ≡ name =
      ap (λ n. slice u.host 0 (n - 1)) colon_at
      ∙ ap (λ n. slice u.host 0 n) (omega arith)
      ∙ ap (λ x. slice x 0 (len name)) e
      ∙ slice-append_left name (":" <> port) in
    rw tested (ap (λ x. (u.host, x)) front)
host_port_no_port-Splits u (without_port h) =
    let none_found : last_colon u.host ≡ 0 = last_index_of_Lacks b':' 0 u.host 0 h in
    let tested : ltb (last_bracket u.host) (last_colon u.host) ≡ false =
      rw none_found (ground arith) in
    simp tested
host_port_no_port-Splits u (bracketed address e) =
    let (at, before) = ends_bracketed address in
    let tested : ltb (last_bracket u.host) (last_colon u.host) ≡ false =
      rw e (rw at (ground (arith, before))) in
    simp tested
