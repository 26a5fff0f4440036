-- ===== src/SignalClient/Connect/Failures.antt =====
-- What connect makes of a dial that fails.

use ziti_livekit_example.Prelude.{
  String, ◌<>◌, ◌==◌, ◌≡◌, ◌≢◌, inl, inr, refl, ◌∙◌, eq_iff, true, false, Bool-cases, Option, none,
  some, eqb, arith, ℕ,
}
use ziti_livekit_example.Outcome.{Error, reason, error_text, Result, ok, err, panic, ◌>>=◌}
use ziti_livekit_example.Text.{has_suffix}
use ziti_livekit_example.SignalClient.Types.{
  ConnectParams, Validation, SignalResponse, Websocket, Client, on_net,
}
use ziti_livekit_example.SignalClient.Connect.{
  err_cannot_connect_signal, err_cannot_dial_signal, to_websocket_url, to_http_url, status_text,
  or_nothing, validation_error, url_params, explain_failure, dialled, connect,
}

-- What the status of a refused validation is called.
pub data Called : ℕ → String → Type 0 where
  unauthorized : Called 401 "unauthorized: "
  not_found : Called 404 "not found: "
  unavailable : Called 503 "unavailable: "
  unnamed : {status : ℕ} → status ≢ 401 → status ≢ 404 → status ≢ 503 → Called status ""

status_text-Called : (status : ℕ) → Called status (status_text status)
unfolding status_text
status_text-Called status = elim (Bool-cases (eqb status 401)) [
  | inl t1 ↦ let e : status ≡ 401 = ground arith in rw e unauthorized
  | inr f1 ↦ elim (Bool-cases (eqb status 404)) [
    | inl t2 ↦ let e : status ≡ 404 = ground arith in rw e not_found
    | inr f2 ↦ elim (Bool-cases (eqb status 503)) [
      | inl t3 ↦ let e : status ≡ 503 = ground arith in rw e unavailable
      | inr f3 ↦
          rw (f1, f2, f3) (unnamed (λ q. ground arith) (λ q. ground arith) (λ q. ground arith))
    ]
  ]
]

-- The error that the outcome of the validation stands for.
pub data Explains : Result Validation → Error → Type 0 where
  accepted : {v : Validation} → v.status ≡ 200 → Explains (ok v) err_cannot_connect_signal
  refused :
      {v : Validation} {called : String}
      → v.status ≢ 200
      → Called v.status called
      → Explains (ok v) (reason (called <> or_nothing v.body))
  unanswered : {e : Error} → Explains (err e) err_cannot_dial_signal
  crashed : {t : String} → Explains (panic t) err_cannot_dial_signal

validation_error-Explains : (v : Result Validation) → Explains v (validation_error v)
unfolding validation_error
validation_error-Explains (ok v) = elim (Bool-cases (eqb v.status 200)) [
  | inl t ↦ rw t (accepted (ground arith))
  | inr f ↦ rw f (refused (λ q. ground arith) (status_text-Called v.status))
]
validation_error-Explains (err e) = unanswered
validation_error-Explains (panic t) = crashed

module _ (ws : Websocket) where
  -- The URLs of the websocket and of the validation.
  abbrev pub socket_url : String → ConnectParams → String
  socket_url url_prefix params = to_websocket_url url_prefix <> ("/rtc" <> url_params ws params)

  abbrev pub validation_url : String → ConnectParams → String
  validation_url url_prefix params =
      to_http_url (to_websocket_url url_prefix) <> ("/rtc/validate" <> url_params ws params)

  -- What connect gives for a dial that failed with an error, and the network that it leaves.
  pub data Undialled (url token : String) (e : Error) (net : ws.Net)
      : Result (Option SignalResponse) → ws.Net → Type 0 where
    no_dns :
        has_suffix (error_text e) ":53: server misbehaving" ≡ true
        → Undialled url token e net (err err_cannot_dial_signal) net
    no_request :
        {e' : Error}
        → has_suffix (error_text e) ":53: server misbehaving" ≡ false
        → ws.new_request_error url ≡ some e'
        → Undialled url token e net (err err_cannot_dial_signal) net
    explained :
        {v : Result Validation} {net' : ws.Net} {x : Error}
        → has_suffix (error_text e) ":53: server misbehaving" ≡ false
        → ws.new_request_error url ≡ none
        → ws.validate url token net ≡ (v, net')
        → Explains v x
        → Undialled url token e net (err x) net'
    crashed :
        {t : String} {net' : ws.Net}
        → has_suffix (error_text e) ":53: server misbehaving" ≡ false
        → ws.new_request_error url ≡ none
        → ws.validate url token net ≡ (panic t, net')
        → Undialled url token e net (panic t) net'

  -- An action that gives such an outcome, and leaves the rest of the client alone.
  abbrev pub Fails :
      String → String → Error → Client ws → Result (Option SignalResponse) × Client ws → Type 0
  Fails url token e c out =
      (r : Result (Option SignalResponse)) × (net' : ws.Net) × Undialled url token e c.net r net'
      × (out ≡ (r, record c { net = net' }))

  explain_failure-validated :
      (prefix : String) (params : ConnectParams) (token : String) (e : Error) (c : Client ws)
      (v : Result Validation) {net' : ws.Net}
      → has_suffix (error_text e) ":53: server misbehaving" ≡ false
      → ws.new_request_error (to_http_url prefix <> ("/rtc/validate" <> url_params ws params))
        ≡ none
      → ws.validate (to_http_url prefix <> ("/rtc/validate" <> url_params ws params)) token c.net
        ≡ (v, net')
      → Fails
          (to_http_url prefix <> ("/rtc/validate" <> url_params ws params))
          token
          e
          c
          (dialled ws prefix params token (err e) c)
  unfolding dialled explain_failure on_net ◌>>=◌
  explain_failure-validated prefix params token e c (ok v) f q h =
      (_, _, explained f q h (validation_error-Explains (ok v)), simp (f, q, h))
  explain_failure-validated prefix params token e c (err x) f q h =
      (_, _, explained f q h (validation_error-Explains (err x)), simp (f, q, h))
  explain_failure-validated prefix params token e c (panic t) f q h =
      (_, _, crashed f q h, simp (f, q, h))

  explain_failure-requested :
      (prefix : String) (params : ConnectParams) (token : String) (e : Error) (c : Client ws)
      (q : Option Error)
      → has_suffix (error_text e) ":53: server misbehaving" ≡ false
      → ws.new_request_error (to_http_url prefix <> ("/rtc/validate" <> url_params ws params)) ≡ q
      → Fails
          (to_http_url prefix <> ("/rtc/validate" <> url_params ws params))
          token
          e
          c
          (dialled ws prefix params token (err e) c)
  unfolding dialled explain_failure ◌>>=◌
  explain_failure-requested prefix params token e c (some x) f q =
      (_, _, no_request f q, simp (f, q))
  explain_failure-requested prefix params token e c none f q =
      explain_failure-validated prefix params token e c _ f q refl

  dialled-Fails :
      (prefix : String) (params : ConnectParams) (token : String) (e : Error) (c : Client ws)
      → Fails
          (to_http_url prefix <> ("/rtc/validate" <> url_params ws params))
          token
          e
          c
          (dialled ws prefix params token (err e) c)
  unfolding dialled explain_failure ◌>>=◌
  dialled-Fails prefix params token e c =
      elim (Bool-cases (has_suffix (error_text e) ":53: server misbehaving")) [
        | inl t ↦ (_, _, no_dns t, simp t)
        | inr f ↦ explain_failure-requested prefix params token e c _ f refl
      ]

  connect-dialled :
      (url_prefix token : String) (params : ConnectParams) (c : Client ws) {e : Error}
      {net' : ws.Net}
      → url_prefix ≢ ""
      → ws.parse_error (socket_url url_prefix params) ≡ none
      → ws.dial (socket_url url_prefix params) token c.net ≡ (err e, net')
      → connect ws url_prefix token params c
        ≡ dialled ws (to_websocket_url url_prefix) params token (err e) (record c { net = net' })
  unfolding connect on_net ◌>>=◌
  connect-dialled url_prefix token params c ne h k =
      let f : (url_prefix == "") ≡ false = ground (arith, eq_iff url_prefix "") in simp (f, h, k)

  -- A dial that fails leaves the client as it was, but for the network; the error that connect gives
  -- tells a server that cannot be reached from one that accepts the validation and from one that
  -- refuses it, by the status and the body of its refusal.
  pub connect-Undialled :
      (url_prefix token : String) (params : ConnectParams) (c : Client ws) {e : Error}
      {net' : ws.Net}
      → url_prefix ≢ ""
      → ws.parse_error (socket_url url_prefix params) ≡ none
      → ws.dial (socket_url url_prefix params) token c.net ≡ (err e, net')
      → (r : Result (Option SignalResponse)) × (net'' : ws.Net) × Undialled
          (validation_url url_prefix params)
          token
          e
          net'
          r
          net''
        × (connect ws url_prefix token params c ≡ (r, record c { net = net'' }))
  connect-Undialled url_prefix token params c {e} {net'} ne h k =
      let (r, net'', u, out) =
        dialled-Fails (to_websocket_url url_prefix) params token e (record c { net = net' }) in
      (r, net'', u, connect-dialled url_prefix token params c ne h k ∙ out)
