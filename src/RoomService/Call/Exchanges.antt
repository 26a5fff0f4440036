-- ===== src/RoomService/Call/Exchanges.antt =====
-- What a successful Twirp call has exchanged.
use ziti_livekit_example.Prelude.{
  ℕ, String, ◌<>◌, ◌≡◌, refl, ap, ◌∙◌, Bool, true, false, not, eqb, Option, none, some,
  if◌then◌else◌, ◌⊎◌, inl, inr, arith,
}
use ziti_livekit_example.Outcome.{Error, Result, ok, err, panic, Action, pure, lift}
use ziti_livekit_example.Outcome.Inversion.{finally-eq-ok, bind-eq-ok, lift_bind-eq-ok}
use ziti_livekit_example.Openziti.Platform.{Platform, World, close_body}
use ziti_livekit_example.RoomService.Types.{HttpResponse, Ctx, Twirp, Method, RoomServiceClient}
use ziti_livekit_example.RoomService.Call.{
  Answer, new_request, or_wrap, unless_done, while_alive, ziti_do, read_answer, receive,
  exchange_request, do_protobuf_request,
}
use ziti_livekit_example.RoomService.Client.{method_name, method_grant, with_auth, service_call}
use ziti_livekit_example.RoomService.Call.Posted.{
  of_inr, attempted, ziti_do-eq-ok, call_headers, made-eq-ok, authorised-eq-ok, posted_with,
}

module _ {p : Platform} (tw : Twirp p) {A : Type 0} where
  or_wrap-answers :
      {B : Type 0} (prefix : String) (r : Result B) (rest : B → Action (World p) (Answer tw A))
      (w : World p) {a : A} {w' : World p}
      → or_wrap tw prefix r rest w ≡ (ok (inr a), w')
      → (b : B) × (r ≡ ok b) × (rest b w ≡ (ok (inr a), w'))
  unfolding or_wrap pure lift
  or_wrap-answers prefix (ok b) rest w h = (b, refl, h)
  or_wrap-answers prefix (err e) rest w h = cc
  or_wrap-answers prefix (panic t) rest w h = cc

  unless_done-answers :
      (o : Option Error) (rest : Action (World p) (Answer tw A)) (w : World p) {a : A}
      {w' : World p}
      → unless_done tw o rest w ≡ (ok (inr a), w')
      → rest w ≡ (ok (inr a), w')
  unfolding pure
  unless_done-answers none rest w h = h
  unless_done-answers (some e) rest w h = cc

  while_alive-answers :
      (ctx : Ctx p) (rest : Action (World p) (Answer tw A)) (w : World p) {a : A} {w' : World p}
      → while_alive tw ctx rest w ≡ (ok (inr a), w')
      → rest w ≡ (ok (inr a), w')
  unfolding while_alive
  while_alive-answers ctx rest w h = unless_done-answers (ctx.done w.net) rest w h

  read_answer-answers :
      (ctx : Ctx p) (body : Error ⊎ String) (unmarshal : String → Result A) (w : World p) {a : A}
      {w' : World p}
      → read_answer tw ctx body unmarshal w ≡ (ok (inr a), w')
      → (text : String) × (body ≡ inr text) × (unmarshal text ≡ ok a)
  unfolding read_answer pure
  read_answer-answers ctx (inl e) unmarshal w h = cc
  read_answer-answers ctx (inr text) unmarshal w h =
      let (b, read, k) = or_wrap-answers _ (unmarshal text) _ w (while_alive-answers ctx _ w h) in
      (text, refl, read ∙ ap ok (of_inr (ap (λ x. x.0) k)))

  if-answers :
      (b : Bool) (e : tw.TwirpError) (m : Action (World p) (Answer tw A)) (w : World p) {a : A}
      {w' : World p}
      → (if not b then pure (inl e) else m) w ≡ (ok (inr a), w')
      → (b ≡ true) × (m w ≡ (ok (inr a), w'))
  unfolding pure
  if-answers true e m w h = (refl, h)
  if-answers false e m w h = cc

  receive-answers :
      (ctx : Ctx p) (resp : HttpResponse) (unmarshal : String → Result A) (w : World p) {a : A}
      {w' : World p}
      → receive tw ctx resp unmarshal w ≡ (ok (inr a), w')
      → (resp.status ≡ 200) × ((text : String) × (resp.body ≡ inr text) × (unmarshal text ≡ ok a))
  unfolding receive
  receive-answers ctx resp unmarshal w h =
      let (tested, k) = if-answers (eqb resp.status 200) _ _ w (while_alive-answers ctx _ w h) in
      (ground (arith, tested), read_answer-answers ctx resp.body unmarshal w k)

  -- A call signed a token with the grant of its method, posted the message to the URL of the method with
  -- that token, and was answered with status 200 and a body that holds the answer.
  pub record Exchanged (c : RoomServiceClient) (method : Method) (room : String)
      (marshalled : Result String) (unmarshal : String → Result A) (w : World p) (a : A)
      : Type 0 where
    pub token : String
    pub signed : tw.to_jwt c.api_key c.api_secret (method_grant method room) ≡ ok token
    pub body : String
    pub message : marshalled ≡ ok body
    pub client : ℕ
    pub is_client : w.client ≡ some client
    pub resp : HttpResponse
    pub net' : p.Net
    pub exchanged :
        tw.exchange
          (record {
            url = c.service_url <> method_name method;
            header = call_headers token;
            body = body;
          })
          w.net
        ≡ (ok resp, net')
    pub status : resp.status ≡ 200
    pub text : String
    pub answer : resp.body ≡ inr text
    pub unmarshalled : unmarshal text ≡ ok a

  -- Where a call of a method of the room service is answered, a token with the grant of the method was
  -- signed, and the message was posted with it to the method's URL through lib/openziti's client, which is
  -- not nil; the status was 200, and the body that was read holds the answer.
  pub service_call-eq-ok :
      (c : RoomServiceClient) (method : Method) (room : String) (ctx : Ctx p)
      (marshalled : Result String) (unmarshal : String → Result A) (w : World p) {a : A}
      {w' : World p}
      → service_call tw c method room ctx marshalled unmarshal w ≡ (ok (inr a), w')
      → Exchanged c method room marshalled unmarshal w a
  unfolding service_call do_protobuf_request exchange_request with_auth new_request
  service_call-eq-ok c method room ctx marshalled unmarshal w h =
      let (ctx', authed, h1) =
        lift_bind-eq-ok (with_auth tw c (method_grant method room) ctx) _ w h in
      let (token, signed, same) = authorised-eq-ok tw ctx _ authed in
      let (body, message, h2) = or_wrap-answers _ marshalled _ w h1 in
      let (req, requested, h3) =
        or_wrap-answers _ (new_request tw ctx' _ body "application/protobuf") _ w
          (while_alive-answers ctx' _ w h2) in
      let (sent, u, attempt_is, h4) = bind-eq-ok _ _ w h3 in
      let (resp, got, h5) = or_wrap-answers _ sent _ u h4 in
      let (v, received, closed) =
        finally-eq-ok (receive tw ctx' resp unmarshal) (close_body p) u h5 in
      let (status, (text, answer, unmarshalled)) = receive-answers ctx' resp unmarshal u received in
      let (client, is_client, exchanged) =
        ziti_do-eq-ok tw w.client req w
          (attempted (λ w. ziti_do tw w.client req w) w attempt_is got) in
      let posted =
        made-eq-ok tw (p.new_request_error (c.service_url <> method_name method)) _ requested in
      record {
        token = token;
        signed = signed;
        body = body;
        message = message;
        client = client;
        is_client = is_client;
        resp = resp;
        net' = u.net;
        exchanged =
            posted_with tw ctx (c.service_url <> method_name method) body token w.net same posted
              exchanged;
        status = status;
        text = text;
        answer = answer;
        unmarshalled = unmarshalled;
      }
