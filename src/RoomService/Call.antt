-- ===== src/RoomService/Call.antt =====
-- doProtobufRequest, through lib/openziti's client. The hooks and interceptors of a Twirp client, of which
-- the programs give none, are left out.
pub mod Bodies
pub mod Posted
pub mod Exchanges
use ziti_livekit_example.Prelude.{
  ℕ, ◌+◌, ◌-◌, String, not, eqb, Option, none, some, List, [], ◌∷◌, if◌then◌else◌, ◌⊎◌, inl, inr,
}
use ziti_livekit_example.Outcome.{
  Error, Result, ok, err, panic, Action, pure, lift, attempt, finally, ◌>>=◌,
}
use ziti_livekit_example.Openziti.Platform.{Platform, World, close_body}
use ziti_livekit_example.Websocket.Types.{Header}
use ziti_livekit_example.Websocket.Dial.Headers.{set_header}
use ziti_livekit_example.RoomService.Types.{HttpRequest, HttpResponse, Ctx, Twirp}
use ziti_livekit_example.RoomService.Errors.{wrap_internal, error_from_response}

-- getCustomHTTPReqHeaders, or the empty header of a new request
abbrev pub custom_headers : Option Header → Header
custom_headers none = []
custom_headers (some h) = h

-- The headers that newRequest adds.
unfoldable pub twirp_headers : String → Header → Header
unfolding set_header
twirp_headers content_type h =
    set_header "Twirp-Version" ("v8.1.3" ∷ [])
      (set_header "Content-Type" (content_type ∷ []) (set_header "Accept" (content_type ∷ []) h))

module _ {p : Platform} (tw : Twirp p) where
  -- A call gives an error of twirp, or its answer.
  abbrev pub Answer : Type 0 → Type 0
  Answer A = tw.TwirpError ⊎ A

  -- http.NewRequest, where its error is nil or not
  abbrev pub made : Option Error → HttpRequest → Result HttpRequest
  made none req = ok req
  made (some e) req = err e

  -- newRequest
  unfoldable pub new_request : Ctx p → String → String → String → Result HttpRequest
  unfolding twirp_headers
  new_request ctx url body content_type = made (p.new_request_error url) (record {
    url = url;
    header = twirp_headers content_type (custom_headers ctx.headers);
    body = body;
  })

  module _ {A B : Type 0} where
    -- if err != nil { return ctx, wrapInternal(err, …) }
    unfoldable pub or_wrap :
        String → Result A → (A → Action (World p) (Answer B)) → Action (World p) (Answer B)
    unfolding wrap_internal
    or_wrap prefix (ok a) rest = rest a
    or_wrap prefix (err e) rest = pure (inl (wrap_internal tw e prefix))
    or_wrap prefix (panic t) rest = lift (panic t)

  module _ {A : Type 0} where
    abbrev pub unless_done :
        Option Error → Action (World p) (Answer A) → Action (World p) (Answer A)
    unless_done none rest = rest
    unless_done (some e) rest = pure (inl (wrap_internal tw e "aborted because context was done"))

    -- if err = ctx.Err(); err != nil { return ctx, wrapInternal(err, …) }
    unfoldable pub while_alive : Ctx p → Action (World p) (Answer A) → Action (World p) (Answer A)
    unfolding wrap_internal
    while_alive ctx rest w = unless_done (ctx.done w.net) rest w

  abbrev pub opened : Result HttpResponse → ℕ → ℕ
  opened (ok r) n = n + 1
  opened (err e) n = n
  opened (panic t) n = n

  -- openziti.ZitiClient.Do(req), of a client that may be nil
  unfoldable pub ziti_do : Option ℕ → HttpRequest → Action (World p) HttpResponse
  ziti_do none req w = (panic "invalid memory address or nil pointer dereference", w)
  ziti_do (some client) req w =
      let (r, net') = tw.exchange req w.net in
      (r, record w { net = net'; open_bodies = opened r w.open_bodies })

  module _ {A : Type 0} where
    -- The answer in a body that was read, or not.
    unfoldable pub read_answer :
        Ctx p → Error ⊎ String → (String → Result A) → Action (World p) (Answer A)
    unfolding while_alive or_wrap wrap_internal
    read_answer ctx (inl e) unmarshal =
        pure (inl (wrap_internal tw e "failed to read response body"))
    read_answer ctx (inr text) unmarshal =
        while_alive ctx
          (or_wrap "failed to unmarshal proto response" (unmarshal text) λ out. pure (inr out))

    -- doProtobufRequest once there is a response
    unfoldable pub receive :
        Ctx p → HttpResponse → (String → Result A) → Action (World p) (Answer A)
    unfolding while_alive read_answer error_from_response
    receive ctx resp unmarshal = while_alive ctx (
        if not (eqb resp.status 200)
        then pure (inl (error_from_response tw resp))
        else read_answer ctx resp.body unmarshal)

    -- doProtobufRequest from the request on
    unfoldable pub exchange_request :
        Ctx p → HttpRequest → (String → Result A) → Action (World p) (Answer A)
    unfolding ziti_do receive or_wrap close_body
    exchange_request ctx req unmarshal = do
      sent ← attempt (λ w. ziti_do w.client req w)
      or_wrap "failed to do request" sent
          λ resp. finally (receive ctx resp unmarshal) (close_body p)

    -- doProtobufRequest, of a message as it is marshalled
    unfoldable pub do_protobuf_request :
        Ctx p → String → Result String → (String → Result A) → Action (World p) (Answer A)
    unfolding or_wrap while_alive new_request exchange_request
    do_protobuf_request ctx url marshalled unmarshal =
        or_wrap "failed to marshal proto request" marshalled λ body. while_alive ctx (
          or_wrap "could not build request" (new_request ctx url body "application/protobuf")
            λ req. exchange_request ctx req unmarshal)
