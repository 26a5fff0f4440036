-- ===== src/Websocket/Dial/Requests.antt =====
-- The request of the handshake: what it refuses, and what it carries.
use ziti_livekit_example.Prelude.{
  List, String, ◌==◌, ◌≡◌, refl, ap, sym, ◌∙◌, inl, inr, ◌⊎◌, false, Bool-cases, Option, none, some,
  [], ◌∷◌, arith, eq_iff,
}
use ziti_livekit_example.Outcome.{ok}
use ziti_livekit_example.Outcome.Inversion.{ok-eq-ok}
use ziti_livekit_example.Openziti.Platform.{Platform}
use ziti_livekit_example.Websocket.Types.{Url, Header, Request, Wire, Dialer}
use ziti_livekit_example.Websocket.Dial.Headers.{get_header, offer_compression}
use ziti_livekit_example.Websocket.Dial.{http_url, without_user, request_at, jar_header, request_of}
use ziti_livekit_example.Websocket.Dial.Callers.{Unique, IsOwn, put_headers-carries}
use ziti_livekit_example.Websocket.Dial.Carried.{
  Absent, Allowed, put_on-eq-ok, put_headers-eq-ok, Allowed-Absent, own_headers,
  offer_compression-get, offer_compression-url,
}

http_url-eq-ok :
    (u : Url) {v : Url}
    → http_url u ≡ ok v
    → ((u.scheme ≡ "ws") × (v ≡ record u { scheme = "http" }))
      ⊎ ((u.scheme ≡ "wss") × (v ≡ record u { scheme = "https" }))
unfolding http_url
http_url-eq-ok u {v} h = elim (Bool-cases (u.scheme == "ws")) [
  | inl t ↦ inl ((eq_iff u.scheme "ws").0 t, ground (arith, t))
  | inr f ↦ elim (Bool-cases (u.scheme == "wss")) [
    | inl t ↦ inr ((eq_iff u.scheme "wss").0 t, ground (arith, f, t))
    | inr g ↦ absurd (ground (arith, f, g))
  ]
]

module _ {p : Platform} (wire : Wire p) where
  -- A request of the handshake for a parsed URL, a key and the caller's headers.
  pub record Requested (d : Dialer p wire) (u : Url) (header : Header) (key : String)
      (req : Request) : Type 0 where
    pub scheme :
        ((u.scheme ≡ "ws") × (req.url ≡ record u { scheme = "http" }))
        ⊎ ((u.scheme ≡ "wss") × (req.url ≡ record u { scheme = "https" }))
    pub user : u.user ≡ none
    pub allowed : Allowed d.subprotocols header
    pub carries :
        (j : String) (vs : List String)
        → IsOwn j
        → ("Sec-WebSocket-Extensions" == j) ≡ false
        → get_header j header ≡ some vs
        → get_header j req.header ≡ some vs
    pub upgrade : get_header "Upgrade" req.header ≡ some ("websocket" ∷ [])
    pub connection : get_header "Connection" req.header ≡ some ("Upgrade" ∷ [])
    pub sec_key : get_header "Sec-WebSocket-Key" req.header ≡ some (key ∷ [])
    pub sec_version : get_header "Sec-WebSocket-Version" req.header ≡ some ("13" ∷ [])

  without_user-eq-ok :
      (o : Option String) (u : Url) {v : Url} → without_user o u ≡ ok v → (o ≡ none) × (u ≡ v)
  unfolding without_user
  without_user-eq-ok none u h = (refl, ok-eq-ok h)
  without_user-eq-ok (some t) u h = cc

  scheme_of :
      {u v w : Url}
      → ((u.scheme ≡ "ws") × (v ≡ record u { scheme = "http" }))
        ⊎ ((u.scheme ≡ "wss") × (v ≡ record u { scheme = "https" }))
      → w ≡ v
      → ((u.scheme ≡ "ws") × (w ≡ record u { scheme = "http" }))
        ⊎ ((u.scheme ≡ "wss") × (w ≡ record u { scheme = "https" }))
  scheme_of (inl (s, e)) w = inl (s, w ∙ e)
  scheme_of (inr (s, e)) w = inr (s, w ∙ e)

  -- The handshake's request is made only of a "ws" or "wss" URL without a user, and of headers of which
  -- none has a reserved key; it carries the headers of an upgrade with the key that was generated, and
  -- each of the caller's headers but those for the host, the subprotocols and the extensions, where the
  -- caller gives no key twice, and no key or version of the handshake in their own spelling.
  pub request_of-eq-ok :
      (d : Dialer p wire) (u : Url) (header : Header) (key : String) (net1 : p.Net) {req : Request}
      → Unique header
      → Absent "Sec-WebSocket-Key" header
      → Absent "Sec-WebSocket-Version" header
      → request_of wire d u header key net1 ≡ ok req
      → Requested d u header key req
  unfolding request_of request_at
  request_of-eq-ok d u header key net1 {req} unique no_key no_version h =
      let (v, url, h1) = put_on-eq-ok (request_at wire d header key net1) _ h in
      let (v', http, h2) = put_on-eq-ok (without_user u.user) (http_url u) url in
      let (user, same) = without_user-eq-ok u.user v' h2 in
      let (r, put, h3) =
        put_on-eq-ok (λ req. ok (offer_compression d.enable_compression req)) _ h1 in
      let (allowed, kept, at) = put_headers-eq-ok d.subprotocols header _ put in
      let (no_upgrade, no_connection) = Allowed-Absent d.subprotocols header allowed in
      let (up, con, sec, version) = own_headers key d.subprotocols (jar_header wire d.jar v net1) in
      let whole = sym (ok-eq-ok h3) in
      let carried = λ (j : String) (e : ("Sec-WebSocket-Extensions" == j) ≡ false).
        ap (λ (x : Request). get_header j x.header) whole
        ∙ offer_compression-get d.enable_compression r j e in
      let url_is =
        ap (λ (x : Request). x.url) whole
        ∙ offer_compression-url d.enable_compression r
        ∙ at
        ∙ sym same in
      record {
        scheme = scheme_of (http_url-eq-ok u http) url_is;
        user = user;
        allowed = allowed;
        carries = λ j vs own e given.
            carried j e ∙ put_headers-carries d.subprotocols header _ j vs own unique given put;
        upgrade = carried "Upgrade" refl ∙ kept "Upgrade" refl no_upgrade ∙ up;
        connection = carried "Connection" refl ∙ kept "Connection" refl no_connection ∙ con;
        sec_key = carried "Sec-WebSocket-Key" refl ∙ kept "Sec-WebSocket-Key" refl no_key ∙ sec;
        sec_version =
            carried "Sec-WebSocket-Version" refl
            ∙ kept "Sec-WebSocket-Version" refl no_version
            ∙ version;
      }
