-- ===== src/Websocket/Dial/Carried.antt =====
-- The headers of a request, and what the steps of making it do to them.
use ziti_livekit_example.Prelude.{
  String, ◌==◌, ◌≡◌, refl, ap, sym, ◌∙◌, inl, inr, Bool, true, false, Bool-cases, some, List, [],
  ◌∷◌, All, arith, eq_iff, if◌then◌else◌,
}
use ziti_livekit_example.Outcome.{Result, ok, err, panic}
use ziti_livekit_example.Outcome.Inversion.{ok-eq-ok}
use ziti_livekit_example.Websocket.Types.{Header, Request}
use ziti_livekit_example.Websocket.Dial.Headers.{
  set_header, get_header, upgrade_headers, is_reserved, put_header, put_on, put_headers,
  offer_compression,
}

-- Setting a header is seen at its key, and at no other.
pub get_header-set_header :
    (j k : String) (vs : List String) (h : Header)
    → get_header j (set_header k vs h) ≡ (if k == j then some vs else get_header j h)
unfolding get_header set_header
get_header-set_header j k vs [] = ground arith
get_header-set_header j k vs ((i, us) ∷ h) =
    ground (arith, get_header-set_header j k vs h, eq_iff i k, eq_iff i j, eq_iff k j)

-- No key of a header is the one given.
abbrev pub Absent : String → Header → Type 0
Absent k h = All (λ kv. (kv.0 == k) ≡ false) h

-- A key that is no name of the subprotocols' header.
abbrev pub IsPlain : String → Type 0
IsPlain k = ("Sec-WebSocket-Protocol" == k) ≡ false

pub put_header-get :
    (subs : List String) (k : String) (vs : List String) (req : Request) (j : String)
    {req' : Request}
    → IsPlain j
    → (k == j) ≡ false
    → put_header subs k vs req ≡ ok req'
    → get_header j req'.header ≡ get_header j req.header
unfolding put_header
put_header-get subs k vs req j {req'} plain other h = ground (
  arith,
  h,
  get_header-set_header j "Sec-WebSocket-Protocol" vs req.header,
  get_header-set_header j k vs req.header,
)

pub host-allowed : (subs : List String) → is_reserved subs "Host" ≡ false
unfolding is_reserved
host-allowed subs = refl

pub put_header-allowed :
    (subs : List String) (k : String) (vs : List String) (req : Request) {req' : Request}
    → put_header subs k vs req ≡ ok req'
    → is_reserved subs k ≡ false
unfolding put_header
put_header-allowed subs k vs req h = elim (Bool-cases (k == "Host")) [
  | inl t ↦ ap (is_reserved subs) ((eq_iff k "Host").0 t) ∙ host-allowed subs
  | inr f ↦ ground (arith, f)
]

abbrev pub Allowed : List String → Header → Type 0
Allowed subs h = All (λ kv. is_reserved subs kv.0 ≡ false) h

pub put_on-eq-ok :
    {A B : Type 0} (f : A → Result B) (r : Result A) {b : B}
    → put_on f r ≡ ok b
    → (a : A) × (r ≡ ok a) × (f a ≡ ok b)
unfolding put_on
put_on-eq-ok f (ok a) h = (a, refl, h)
put_on-eq-ok f (err e) h = cc
put_on-eq-ok f (panic t) h = cc

pub put_header-url :
    (subs : List String) (k : String) (vs : List String) (req : Request) {req' : Request}
    → put_header subs k vs req ≡ ok req'
    → req'.url ≡ req.url
unfolding put_header
put_header-url subs k vs req h = ground arith

pub put_headers-eq-ok :
    (subs : List String) (h : Header) (req : Request) {req' : Request}
    → put_headers subs h req ≡ ok req'
    → Allowed subs h
      × ((j : String) → IsPlain j → Absent j h → get_header j req'.header ≡ get_header j req.header)
      × (req'.url ≡ req.url)
unfolding put_headers
put_headers-eq-ok subs [] req h = (
  tt,
  (λ j q a. ap (λ (r : Request). get_header j r.header) (sym (ok-eq-ok h))),
  ap (λ (r : Request). r.url) (sym (ok-eq-ok h)),
)
put_headers-eq-ok subs ((k, vs) ∷ rest) req h =
    let (r, first, then_rest) = put_on-eq-ok (put_headers subs rest) (put_header subs k vs req) h in
    let (allowed, kept, url) = put_headers-eq-ok subs rest r then_rest in
    (
      (put_header-allowed subs k vs req first, allowed),
      (λ j q a. kept j q a.1 ∙ put_header-get subs k vs req j q a.0 first),
      url ∙ put_header-url subs k vs req first,
    )

pub is_reserved-others :
    (subs : List String) (k : String)
    → is_reserved subs k ≡ false
    → ((k == "Upgrade") ≡ false) × ((k == "Connection") ≡ false)
unfolding is_reserved
is_reserved-others subs k h = ground arith

pub Allowed-Absent :
    (subs : List String) (h : Header) → Allowed subs h → Absent "Upgrade" h × Absent "Connection" h
Allowed-Absent subs [] a = (tt, tt)
Allowed-Absent subs ((k, vs) ∷ h) (a, as') =
    let (u, c) = is_reserved-others subs k a in
    let (us, cs) = Allowed-Absent subs h as' in ((u, us), (c, cs))

pub own_headers :
    (key : String) (subs : List String) (h : Header)
    → (get_header "Upgrade" (upgrade_headers key subs h) ≡ some ("websocket" ∷ []))
      × (get_header "Connection" (upgrade_headers key subs h) ≡ some ("Upgrade" ∷ []))
      × (get_header "Sec-WebSocket-Key" (upgrade_headers key subs h) ≡ some (key ∷ []))
      × (get_header "Sec-WebSocket-Version" (upgrade_headers key subs h) ≡ some ("13" ∷ []))
unfolding upgrade_headers
own_headers key [] h = (
  simp get_header-set_header,
  simp get_header-set_header,
  simp get_header-set_header,
  simp get_header-set_header,
)
own_headers key (t ∷ ts) h = (
  simp get_header-set_header,
  simp get_header-set_header,
  simp get_header-set_header,
  simp get_header-set_header,
)

pub offer_compression-get :
    (b : Bool) (req : Request) (j : String)
    → ("Sec-WebSocket-Extensions" == j) ≡ false
    → get_header j (offer_compression b req).header ≡ get_header j req.header
unfolding offer_compression
offer_compression-get false req j h = refl
offer_compression-get true req j h = simp (get_header-set_header, h)

pub offer_compression-url : (b : Bool) (req : Request) → (offer_compression b req).url ≡ req.url
unfolding offer_compression
offer_compression-url false req = refl
offer_compression-url true req = refl
