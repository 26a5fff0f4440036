-- ===== src/RoomService/Call/Posted.antt =====
-- The request of a Twirp call, and its exchange.
use ziti_livekit_example.Prelude.{
  ℕ, String, ◌<>◌, ◌≡◌, refl, ap, sym, ◌∙◌, Option, none, some, [], ◌∷◌, ◌⊎◌, inr, arith,
}
use ziti_livekit_example.Outcome.{Error, Result, ok, err, panic, Action, attempt}
use ziti_livekit_example.Outcome.Inversion.{ok-eq-ok}
use ziti_livekit_example.Openziti.Platform.{Platform, World}
use ziti_livekit_example.Websocket.Types.{Header}
use ziti_livekit_example.Websocket.Dial.Headers.{set_header}
use ziti_livekit_example.RoomService.Types.{HttpRequest, HttpResponse, Ctx, Twirp}
use ziti_livekit_example.RoomService.Call.{made, ziti_do, twirp_headers, custom_headers}
use ziti_livekit_example.RoomService.Client.{authorised}
use ziti_livekit_example.SignalClient.Overlay.{new_header_with_token}

pub of_inr : {A B : Type 0} {a b : B} → ◌≡◌ {A = Result (A ⊎ B)} (ok (inr a)) (ok (inr b)) → a ≡ b
of_inr h = cc

pub attempted :
    {p : Platform} {B : Type 0} (m : Action (World p) B) (w : World p) {b : B} {u : World p}
    {r : Result B}
    → attempt m w ≡ (ok r, u)
    → r ≡ ok b
    → m w ≡ (ok b, u)
unfolding attempt
attempted m w {b} {u} {r} h e = ground arith

pub ziti_do-eq-ok :
    {p : Platform} (tw : Twirp p) (o : Option ℕ) (req : HttpRequest) (w : World p)
    {resp : HttpResponse} {u : World p}
    → ziti_do tw o req w ≡ (ok resp, u)
    → (client : ℕ) × (o ≡ some client) × (tw.exchange req w.net ≡ (ok resp, u.net))
unfolding ziti_do
ziti_do-eq-ok tw none req w h = cc
ziti_do-eq-ok tw (some client) req w h = (client, refl, (λ i. ((h i).0, (h i).1.net)))

-- The headers of a call with a token.
abbrev pub call_headers : String → Header
call_headers token =
    ("Authorization", ("Bearer " <> token) ∷ [])
    ∷ ("Accept", "application/protobuf" ∷ [])
    ∷ ("Content-Type", "application/protobuf" ∷ [])
    ∷ ("Twirp-Version", "v8.1.3" ∷ [])
    ∷ []

pub made-eq-ok :
    {p : Platform} (tw : Twirp p) (o : Option Error) (req : HttpRequest) {req' : HttpRequest}
    → made tw o req ≡ ok req'
    → req ≡ req'
made-eq-ok tw none req h = ok-eq-ok h
made-eq-ok tw (some e) req h = cc

pub authorised-eq-ok :
    {p : Platform} (tw : Twirp p) (ctx : Ctx p) (r : Result String) {ctx' : Ctx p}
    → authorised tw ctx r ≡ ok ctx'
    → (token : String) × (r ≡ ok token)
      × (record ctx { headers = some (new_header_with_token token) } ≡ ctx')
authorised-eq-ok tw ctx (ok token) h = (token, refl, ok-eq-ok h)
authorised-eq-ok tw ctx (err e) h = cc
authorised-eq-ok tw ctx (panic t) h = cc

pub headers-token :
    (token : String)
    → twirp_headers "application/protobuf" (custom_headers (some (new_header_with_token token)))
      ≡ call_headers token
unfolding twirp_headers new_header_with_token set_header
headers-token token = refl

pub posted_with :
    {p : Platform} (tw : Twirp p) (ctx : Ctx p) (url body token : String) (net' : p.Net)
    {ctx' : Ctx p} {req : HttpRequest} {x : Result HttpResponse × p.Net}
    → record ctx { headers = some (new_header_with_token token) } ≡ ctx'
    → record {
      url = url;
      header = twirp_headers "application/protobuf" (custom_headers ctx'.headers);
      body = body;
    }
      ≡ req
    → tw.exchange req net' ≡ x
    → tw.exchange (record { url = url; header = call_headers token; body = body }) net' ≡ x
posted_with {p} tw ctx url body token net' same posted h =
    let header_is =
      sym (headers-token token)
      ∙ ap (λ (x : Ctx p). twirp_headers "application/protobuf" (custom_headers x.headers)) same in
    ap (λ h. tw.exchange (record { url = url; header = h; body = body }) net') header_is
    ∙ ap (λ r. tw.exchange r net') posted
    ∙ h
