-- ===== src/RoomService/Errors.antt =====
-- The errors of a Twirp call: the JSON that a server sends, and what a client makes of a response.
pub mod RoundTrips
use ziti_livekit_example.Prelude.{
  ℕ, String, ◌==◌, ◌<>◌, Bool, true, false, ◌&&◌, not, leb, ltb, eqb, List, [], ◌∷◌, if◌then◌else◌,
  Option, none, some, ◌⊎◌, inl, inr,
}
use ziti_livekit_example.Outcome.{Error, reason, error_text, Result, ok, err, panic}
use ziti_livekit_example.Openziti.Platform.{Platform}
use ziti_livekit_example.RoomService.Types.{Meta, HttpResponse, TwerrJson, Twirp}

-- isHTTPRedirect
unfoldable pub is_http_redirect : ℕ → Bool
is_http_redirect status = leb 300 status && leb status 399

-- The code for an HTTP error that is not twirp's.
unfoldable pub intermediary_code : ℕ → String
unfolding is_http_redirect
intermediary_code status =
    if is_http_redirect status
    then "internal"
    else if eqb status 400
    then "internal"
    else if eqb status 401
    then "unauthenticated"
    else if eqb status 403
    then "permission_denied"
    else if eqb status 404
    then "bad_route"
    else if eqb status 429
    then "resource_exhausted"
    else if eqb status 502
    then "unavailable"
    else if eqb status 503
    then "unavailable"
    else if eqb status 504
    then "unavailable"
    else "unknown"

module _ {p : Platform} (tw : Twirp p) where
  -- wrapInternal
  unfoldable pub wrap_internal : Error → String → tw.TwirpError
  wrap_internal e prefix = tw.internal_error_with (reason (prefix <> (": " <> error_text e)))

  -- marshalErrorToJSON
  unfoldable pub marshal_error_to_json : tw.TwirpError → String
  marshal_error_to_json e =
      let msg = tw.msg e in
      elim (tw.marshal_error (record {
        code = tw.code e;
        msg = if ltb 1000000 (tw.byte_length msg) then tw.cut 1000000 msg else msg;
        meta = tw.meta_map e;
      })) [
        | some buf ↦ buf
        | none ↦
            "{\"type\": \"internal\", \"msg\": \"There was an error but it could not be serialized into JSON\"}"
      ]

  -- twirpErrorFromIntermediary
  unfoldable pub twirp_error_from_intermediary : ℕ → String → String → tw.TwirpError
  unfolding intermediary_code
  twirp_error_from_intermediary status msg body_or_location =
      tw.with_meta
        (tw.with_meta
          (tw.with_meta (tw.new_error (intermediary_code status) msg) "http_error_from_intermediary"
            "true")
          "status_code" (tw.decimal status))
        (if is_http_redirect status then "location" else "body") body_or_location

  -- The loop over the error's metadata.
  unfoldable pub with_all_meta : Meta → tw.TwirpError → tw.TwirpError
  with_all_meta [] e = e
  with_all_meta ((k, v) ∷ m) e = with_all_meta m (tw.with_meta e k v)

  -- errorFromResponse, on the JSON of the body
  unfoldable pub error_from_json : ℕ → String → Option TwerrJson → tw.TwirpError
  unfolding twirp_error_from_intermediary with_all_meta
  error_from_json status body (some tj) =
      if tj.code == ""
      then twirp_error_from_intermediary status
          ("Error from intermediary with HTTP status code "
            <> (tw.decimal status <> (" " <> tw.quoted (tw.status_text status))))
          body
      else if not (tw.is_valid_error_code tj.code)
      then tw.with_meta
          (tw.new_error "internal"
            ("invalid type returned from server error response: " <> tj.code))
          "body" body
      else with_all_meta tj.meta (tw.new_error tj.code tj.msg)
  error_from_json status body none =
      twirp_error_from_intermediary status
        ("Error from intermediary with HTTP status code "
          <> (tw.decimal status <> (" " <> tw.quoted (tw.status_text status))))
        body

  -- errorFromResponse, on the body that was read
  unfoldable pub error_from_body : ℕ → Error ⊎ String → tw.TwirpError
  unfolding error_from_json wrap_internal
  error_from_body status (inr body) = error_from_json status body (tw.decode_error body)
  error_from_body status (inl e) = wrap_internal e "failed to read server error response body"

  -- errorFromResponse
  unfoldable pub error_from_response : HttpResponse → tw.TwirpError
  unfolding error_from_body
  error_from_response resp =
      if is_http_redirect resp.status
      then twirp_error_from_intermediary resp.status
          ("unexpected HTTP status code "
            <> (tw.decimal resp.status
                <> (" "
                    <> (tw.quoted (tw.status_text resp.status)
                        <> (" received, Location=" <> tw.quoted resp.location)))))
          resp.location
      else error_from_body resp.status resp.body
