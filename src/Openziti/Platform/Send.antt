-- ===== src/Openziti/Platform/Send.antt =====
-- What `send` does where its request is made and answered.
use ziti_livekit_example.Prelude.{String, ◌≡◌, refl, ◌+◌, ◌∷◌, none, some, Option}
use ziti_livekit_example.Outcome.{Error, Result, ok, err, panic, Action, finally, continue, ◌>>=◌}
use ziti_livekit_example.Outcome.Inversion.{finally-eq-ok}
use ziti_livekit_example.Openziti.Platform.{
  Platform, World, Request, Response, session_headers, made, opened, session_request, client_do,
  close_body, send,
}

module _ (p : Platform) where
  -- The request of a verb, a URL and a body, with the token that the world holds.
  abbrev pub request : World p → String → String → String → Request
  request w verb url body = record {
    verb = verb;
    url = url;
    body = body;
    headers = session_headers p w.session_token;
  }

  -- The world in which a reply to it is handled.
  abbrev pub replied : World p → Request → p.Net → World p
  replied w req net' = record w { net = net'; sent = req ∷ w.sent; open_bodies = w.open_bodies + 1 }

module _ {p : Platform} {A : Type 0} where
  -- A made and answered request runs the rest, then closes the body.
  pub send_lem :
      (verb url body : String) (rest : Response → Action (World p) A) (w : World p) {r : Response}
      {net' : p.Net}
      → p.new_request_error url ≡ none
      → p.exchange (request p w verb url body) w.net ≡ (ok r, net')
      → send p verb url body rest w
        ≡ finally (rest r) (close_body p) (replied p w (request p w verb url body) net')
  unfolding send session_request client_do ◌>>=◌
  send_lem verb url body rest w h k = rw (h, k)

  -- A request was answered, and the rest succeeded on the reply.
  abbrev pub Replies :
      (rest : Response → Action (World p) A) (req : Request) (w : World p) (a : A) (w' : World p)
      → Type 0
  Replies rest req w a w' =
      (r : Response) × (net' : p.Net) × (u : World p) × (p.exchange req w.net ≡ (ok r, net'))
      × (rest r (replied p w req net') ≡ (ok a, u))
      × (w' ≡ close_body p u)

  reply-eq-ok :
      (rest : Response → Action (World p) A) (req : Request) (w : World p) (r : Result Response)
      (net' : p.Net) {a : A} {w' : World p}
      → p.exchange req w.net ≡ (r, net')
      → continue r
          (λ resp. finally (rest resp) (close_body p))
          (record w { net = net'; sent = req ∷ w.sent; open_bodies = opened p r w.open_bodies })
        ≡ (ok a, w')
      → Replies rest req w a w'
  reply-eq-ok rest req w (ok r) net' e h =
      let (u, run, closed) = finally-eq-ok (rest r) (close_body p) (replied p w req net') h in
      (r, net', u, e, run, closed)
  reply-eq-ok rest req w (err x) net' e h = cc
  reply-eq-ok rest req w (panic x) net' e h = cc

  made-eq-ok :
      (rest : Response → Action (World p) A) (o : Option Error) (req : Request) (w : World p)
      {a : A} {w' : World p}
      → continue
          (made p o req)
          (λ q. client_do p q >>= λ resp. finally (rest resp) (close_body p))
          w
        ≡ (ok a, w')
      → Replies rest req w a w'
  unfolding client_do ◌>>=◌
  made-eq-ok rest none req w h =
      reply-eq-ok rest req w (p.exchange req w.net).0 (p.exchange req w.net).1 refl h
  made-eq-ok rest (some e) req w h = cc

  -- If it succeeds, the request was answered, and the rest succeeded.
  pub send-eq-ok :
      (verb url body : String) (rest : Response → Action (World p) A) (w : World p) {a : A}
      {w' : World p}
      → send p verb url body rest w ≡ (ok a, w')
      → Replies rest (request p w verb url body) w a w'
  unfolding send session_request ◌>>=◌
  send-eq-ok verb url body rest w h = made-eq-ok rest (p.new_request_error url) _ w h
