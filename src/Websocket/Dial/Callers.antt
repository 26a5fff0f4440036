-- ===== src/Websocket/Dial/Callers.antt =====
-- The headers that a caller gives, in the request that is made with them.
use ziti_livekit_example.Prelude.{
  String, ◌==◌, ◌≡◌, refl, ap, sym, ◌∙◌, Bool-cases, inl, inr, false, true, some, List, [], ◌∷◌,
  arith, eq_iff,
}
use mathlib.Core.Path.{subst}
use ziti_livekit_example.Outcome.{ok}
use ziti_livekit_example.Websocket.Types.{Header, Request}
use ziti_livekit_example.Websocket.Dial.Headers.{get_header, put_header, put_headers}
use ziti_livekit_example.Websocket.Dial.Carried.{
  Absent, IsPlain, get_header-set_header, put_on-eq-ok, put_headers-eq-ok,
}

-- No key stands twice in a header.
abbrev pub Unique : Header → Type 0
Unique [] = Unit {0}
Unique ((k, vs) ∷ h) = Absent k h × Unique h

-- A key that goes into the request as it is given.
abbrev pub IsOwn : String → Type 0
IsOwn k = IsPlain k × ((k == "Host") ≡ false) × ((k == "Sec-Websocket-Protocol") ≡ false)

put_header-own :
    (subs : List String) (k : String) (vs : List String) (req : Request) {req' : Request}
    → IsOwn k
    → put_header subs k vs req ≡ ok req'
    → get_header k req'.header ≡ some vs
unfolding put_header
put_header-own subs k vs req (p, q, r) h =
    ground (arith, h, q, r, get_header-set_header k k vs req.header, eq_iff k k)

get_header-head :
    (j k : String) (us vs : List String) (h : Header)
    → (k == j) ≡ true
    → get_header j ((k, us) ∷ h) ≡ some vs
    → us ≡ vs
unfolding get_header
get_header-head j k us vs h t e = ground (arith, t, e)

get_header-tail :
    (j k : String) (us : List String) (h : Header)
    → (k == j) ≡ false
    → get_header j ((k, us) ∷ h) ≡ get_header j h
unfolding get_header
get_header-tail j k us h f = rw f refl

-- A header of the caller is one of the request, with the same values.
pub put_headers-carries :
    (subs : List String) (h : Header) (req : Request) (j : String) (vs : List String)
    {req' : Request}
    → IsOwn j
    → Unique h
    → get_header j h ≡ some vs
    → put_headers subs h req ≡ ok req'
    → get_header j req'.header ≡ some vs
unfolding put_headers get_header
put_headers-carries subs [] req j vs own u e h = absurd cc
put_headers-carries subs ((k, us) ∷ rest) req j vs own (absent, u) e h =
    let (r, first, then_rest) = put_on-eq-ok (put_headers subs rest) (put_header subs k us req) h in
    let (allowed, kept, url) = put_headers-eq-ok subs rest r then_rest in
    elim (Bool-cases (k == j)) [
      | inl t ↦
          let same = (eq_iff k j).0 t in
          kept j own.0 (subst (λ x. Absent x rest) same absent)
          ∙ ap (λ x. get_header x r.header) (sym same)
          ∙ put_header-own subs k us req (subst IsOwn (sym same) own) first
          ∙ ap some (get_header-head j k us vs rest t e)
      | inr f ↦
          put_headers-carries subs rest r j vs own u (sym (get_header-tail j k us rest f) ∙ e)
            then_rest
    ]
