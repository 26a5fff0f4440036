-- ===== src/RoomService/Call/Bodies.antt =====
-- A Twirp call changes nothing but the network, and leaves no body open.
use ziti_livekit_example.Prelude.{
  ℕ, ◌+◌, String, ◌≡◌, refl, ap, sym, ◌∙◌, Bool, true, false, not, eqb, Option, none, some,
  if◌then◌else◌, ◌<>◌, ◌⊎◌, inl, inr, arith,
}
use ziti_livekit_example.Outcome.{
  Error, Result, ok, err, panic, Action, pure, lift, attempt, finally, settle, continue, ◌>>=◌,
}
use ziti_livekit_example.Openziti.Platform.{Platform, World, close_body}
use ziti_livekit_example.RoomService.Types.{
  HttpRequest, HttpResponse, Ctx, Twirp, Method, RoomServiceClient,
}
use ziti_livekit_example.RoomService.Call.{
  Answer, new_request, or_wrap, unless_done, while_alive, opened, ziti_do, read_answer, receive,
  exchange_request, do_protobuf_request,
}
use ziti_livekit_example.RoomService.Client.{method_name, method_grant, with_auth, service_call}

-- Nothing but the network has changed.
abbrev pub OnlyNet : {p : Platform} → World p → World p → Type 0
OnlyNet w w' = w' ≡ record w { net = w'.net }

OnlyNet-of :
    {p : Platform} (w w' : World p) (net' : p.Net) → w' ≡ record w { net = net' } → OnlyNet w w'
OnlyNet-of w w' net' h = h ∙ ap (λ n. record w { net = n }) (sym (ap (λ (x : World _). x.net) h))

module _ {p : Platform} (tw : Twirp p) {A : Type 0} where
  or_wrap-still :
      {B : Type 0} (prefix : String) (r : Result B) (rest : B → Action (World p) (Answer tw A))
      (w : World p)
      → ((b : B) → (rest b w).1 ≡ w)
      → (or_wrap tw prefix r rest w).1 ≡ w
  unfolding or_wrap pure lift
  or_wrap-still prefix (ok b) rest w h = h b
  or_wrap-still prefix (err e) rest w h = refl
  or_wrap-still prefix (panic t) rest w h = refl

  unless_done-still :
      (o : Option Error) (rest : Action (World p) (Answer tw A)) (w : World p)
      → (rest w).1 ≡ w
      → (unless_done tw o rest w).1 ≡ w
  unfolding pure
  unless_done-still none rest w h = h
  unless_done-still (some e) rest w h = refl

  while_alive-still :
      (ctx : Ctx p) (rest : Action (World p) (Answer tw A)) (w : World p)
      → (rest w).1 ≡ w
      → (while_alive tw ctx rest w).1 ≡ w
  unfolding while_alive
  while_alive-still ctx rest w h = unless_done-still (ctx.done w.net) rest w h

  read_answer-still :
      (ctx : Ctx p) (body : Error ⊎ String) (unmarshal : String → Result A) (w : World p)
      → (read_answer tw ctx body unmarshal w).1 ≡ w
  unfolding read_answer pure
  read_answer-still ctx (inl e) unmarshal w = refl
  read_answer-still ctx (inr text) unmarshal w =
      while_alive-still ctx _ w (or_wrap-still _ (unmarshal text) _ w (λ b. refl))

  if-still :
      (b : Bool) (m n : Action (World p) (Answer tw A)) (w : World p)
      → (m w).1 ≡ w
      → (n w).1 ≡ w
      → ((if b then m else n) w).1 ≡ w
  if-still true m n w h k = h
  if-still false m n w h k = k

  -- What is done with a response changes nothing.
  receive-still :
      (ctx : Ctx p) (resp : HttpResponse) (unmarshal : String → Result A) (w : World p)
      → (receive tw ctx resp unmarshal w).1 ≡ w
  unfolding receive pure
  receive-still ctx resp unmarshal w = while_alive-still ctx _ w (
      if-still (not (eqb resp.status 200)) _ _ w refl (read_answer-still ctx resp.body unmarshal w))

  -- The rest of a call after the exchange, with the body of its response closed.
  after_exchange : Ctx p → (String → Result A) → Result HttpResponse → World p → World p
  after_exchange ctx unmarshal r w =
      (continue (settle r w).0
        (λ sent.
          or_wrap tw "failed to do request" sent
            λ resp. finally (receive tw ctx resp unmarshal) (close_body p))
        (settle r w).1).1

  after_exchange-OnlyNet :
      (ctx : Ctx p) (unmarshal : String → Result A) (r : Result HttpResponse) (net' : p.Net)
      (w : World p)
      → after_exchange ctx unmarshal r
          (record w { net = net'; open_bodies = opened tw r w.open_bodies })
        ≡ record w { net = net' }
  unfolding after_exchange or_wrap finally close_body pure lift
  after_exchange-OnlyNet ctx unmarshal (ok resp) net' w =
      ap (close_body p) (
        receive-still ctx resp unmarshal (record w { net = net'; open_bodies = w.open_bodies + 1 }))
      ∙ ap (λ n. record w { net = net'; open_bodies = n }) (omega arith)
  after_exchange-OnlyNet ctx unmarshal (err e) net' w = refl
  after_exchange-OnlyNet ctx unmarshal (panic t) net' w = refl

  sent-OnlyNet :
      (o : Option ℕ) (ctx : Ctx p) (req : HttpRequest) (unmarshal : String → Result A) (w : World p)
      → OnlyNet w
          ((attempt (ziti_do tw o req) >>= λ sent.
              or_wrap tw "failed to do request" sent
                λ resp. finally (receive tw ctx resp unmarshal) (close_body p))
            w).1
  unfolding ziti_do attempt ◌>>=◌ after_exchange
  sent-OnlyNet none ctx req unmarshal w = refl
  sent-OnlyNet (some client) ctx req unmarshal w =
      OnlyNet-of w _ (tw.exchange req w.net).1
        (after_exchange-OnlyNet ctx unmarshal (tw.exchange req w.net).0 (tw.exchange req w.net).1 w)

  exchange_request-OnlyNet :
      (ctx : Ctx p) (req : HttpRequest) (unmarshal : String → Result A) (w : World p)
      → OnlyNet w (exchange_request tw ctx req unmarshal w).1
  unfolding exchange_request attempt ◌>>=◌
  exchange_request-OnlyNet ctx req unmarshal w = sent-OnlyNet w.client ctx req unmarshal w

  or_wrap-OnlyNet :
      {B : Type 0} (prefix : String) (r : Result B) (rest : B → Action (World p) (Answer tw A))
      (w : World p)
      → ((b : B) → OnlyNet w (rest b w).1)
      → OnlyNet w (or_wrap tw prefix r rest w).1
  unfolding or_wrap pure lift
  or_wrap-OnlyNet prefix (ok b) rest w h = h b
  or_wrap-OnlyNet prefix (err e) rest w h = refl
  or_wrap-OnlyNet prefix (panic t) rest w h = refl

  unless_done-OnlyNet :
      (o : Option Error) (rest : Action (World p) (Answer tw A)) (w : World p)
      → OnlyNet w (rest w).1
      → OnlyNet w (unless_done tw o rest w).1
  unfolding pure
  unless_done-OnlyNet none rest w h = h
  unless_done-OnlyNet (some e) rest w h = refl

  do_protobuf_request-OnlyNet :
      (ctx : Ctx p) (url : String) (marshalled : Result String) (unmarshal : String → Result A)
      (w : World p)
      → OnlyNet w (do_protobuf_request tw ctx url marshalled unmarshal w).1
  unfolding do_protobuf_request while_alive
  do_protobuf_request-OnlyNet ctx url marshalled unmarshal w =
      or_wrap-OnlyNet _ marshalled _ w λ body. unless_done-OnlyNet (ctx.done w.net) _ w (
        or_wrap-OnlyNet _ (new_request tw ctx url body "application/protobuf") _ w
          λ req. exchange_request-OnlyNet ctx req unmarshal w)

  authorised-OnlyNet :
      (r : Result (Ctx p)) (f : Ctx p → Action (World p) (Answer tw A)) (w : World p)
      → ((ctx : Ctx p) → OnlyNet w (f ctx w).1)
      → OnlyNet w ((lift r >>= f) w).1
  unfolding lift ◌>>=◌
  authorised-OnlyNet (ok ctx) f w h = h ctx
  authorised-OnlyNet (err e) f w h = refl
  authorised-OnlyNet (panic t) f w h = refl

  -- Whatever its outcome, a call of a method of the room service changes nothing but the network: the body
  -- of a response that it got is closed again.
  pub service_call-OnlyNet :
      (c : RoomServiceClient) (method : Method) (room : String) (ctx : Ctx p)
      (marshalled : Result String) (unmarshal : String → Result A) (w : World p)
      → OnlyNet w (service_call tw c method room ctx marshalled unmarshal w).1
  unfolding service_call
  service_call-OnlyNet c method room ctx marshalled unmarshal w =
      authorised-OnlyNet (with_auth tw c (method_grant method room) ctx) _ w λ ctx'.
        do_protobuf_request-OnlyNet ctx' (c.service_url <> method_name method) marshalled unmarshal
          w
