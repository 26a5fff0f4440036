-- ===== src/Openziti/Identity/Sessions.antt =====
-- What the identity operations leave of the session, on every branch.
use ziti_livekit_example.Prelude.{
  ℕ, String, Option, none, some, ◌+◌, ◌≡◌, refl, ◌∙◌, Bool, true, false, List, ◌∷◌, [], arith,
  if◌then◌else◌,
}
use mathlib.Core.Path.{subst}
use ziti_livekit_example.Outcome.{
  Error, Result, ok, err, panic, Action, pure, fail, lift, guard, finally, continue, ◌>>=◌,
}
use ziti_livekit_example.Openziti.Platform.{
  Platform, World, Request, Response, made, opened, client_do, close_body, send,
}
use ziti_livekit_example.Openziti.Identity.{
  get_identity, read_created, create_identity, update_identity, read_deleted, delete_identity,
}

-- A request that carries the session's token, and says that its body is JSON.
abbrev pub IsAuthorised : String → Request → Type 0
IsAuthorised token req =
    req.headers ≡ ("Content-Type", "application/json") ∷ ("zt-session", token) ∷ []

-- The second list is the first with authorised requests in front.
pub data Authorised (token : String) (old : List Request) : List Request → Type 0 where
  same : Authorised token old old
  more :
      (req : Request) {new : List Request}
      → IsAuthorised token req
      → Authorised token old new
      → Authorised token old (req ∷ new)

pub Authorised-trans :
    {token : String} {a b c : List Request}
    → Authorised token a b
    → Authorised token b c
    → Authorised token a c
Authorised-trans r same = r
Authorised-trans r (more req h s) = more req h (Authorised-trans r s)

-- The package's variables but the session's token, and the goroutines that were started.
abbrev pub variables :
    {p : Platform}
    → World p
    → Option p.Context
      × Option p.CtxCollection
      × Option ℕ
      × Option ℕ
      × Option p.Context
      × Option ℕ
      × ℕ
      × List String
variables w = (
  w.ziti_context, w.ziti_contexts, w.transport, w.client, w.custom_dialer, w.websocket,
  w.transports, w.keepalives,
)

-- From one world to the next, only the network has changed, authorised requests were sent, and
-- every reply's body was closed.
pub record Serves {p : Platform} (w w' : World p) : Type 0 where
  pub session_token : w'.session_token ≡ w.session_token
  pub variables : variables w' ≡ variables w
  pub disk : w'.disk ≡ w.disk
  pub open_bodies : w'.open_bodies ≡ w.open_bodies
  pub sent : Authorised w.session_token w.sent w'.sent

Serves-refl : {p : Platform} (w : World p) → Serves w w
Serves-refl w = record {
  session_token = refl;
  variables = refl;
  disk = refl;
  open_bodies = refl;
  sent = same;
}

Serves-trans : {p : Platform} {a b c : World p} → Serves a b → Serves b c → Serves a c
Serves-trans {a} {b} {c} h k = record {
  session_token = k.session_token ∙ h.session_token;
  variables = k.variables ∙ h.variables;
  disk = k.disk ∙ h.disk;
  open_bodies = k.open_bodies ∙ h.open_bodies;
  sent = Authorised-trans h.sent (subst (λ t. Authorised t b.sent c.sent) h.session_token k.sent);
}

-- An action that does so, whatever its outcome.
pub record Orderly {p : Platform} {A : Type 0} (m : Action (World p) A) : Type 0 where
  pub at : (w : World p) → Serves w (m w).1

module _ {p : Platform} {A : Type 0} where
  Orderly-pure : (a : A) → Orderly {p = p} (pure a)
  unfolding pure
  Orderly-pure a = record { at = Serves-refl }

  Orderly-fail : (e : Error) → Orderly {p = p} {A = A} (fail e)
  unfolding fail
  Orderly-fail e = record { at = Serves-refl }

  Orderly-lift : (r : Result A) → Orderly {p = p} (lift r)
  unfolding lift
  Orderly-lift r = record { at = Serves-refl }

  Orderly-if :
      (b : Bool) (m n : Action (World p) A) → Orderly m → Orderly n → Orderly (if b then m else n)
  Orderly-if true m n h k = h
  Orderly-if false m n h k = k

Orderly-guard : {p : Platform} (b : Bool) (e : Error) → Orderly {p = p} (guard b e)
unfolding guard
Orderly-guard true e = record { at = Serves-refl }
Orderly-guard false e = record { at = Serves-refl }

module _ {p : Platform} {A B : Type 0} where
  Orderly-continue :
      (r : Result A) (f : A → Action (World p) B)
      → ((a : A) → Orderly (f a))
      → (w : World p) → Serves w (continue r f w).1
  Orderly-continue (ok a) f h w = (h a).at w
  Orderly-continue (err e) f h w = Serves-refl w
  Orderly-continue (panic t) f h w = Serves-refl w

  Orderly-bind :
      (m : Action (World p) A) (f : A → Action (World p) B)
      → Orderly m
      → ((a : A) → Orderly (f a))
      → Orderly (m >>= f)
  unfolding ◌>>=◌
  Orderly-bind m f h k = record {
    at = λ w. Serves-trans (h.at w) (Orderly-continue (m w).0 f k (m w).1);
  }

module _ {p : Platform} {A : Type 0} (rest : Response → Action (World p) A)
    (h : (r : Response) → Orderly (rest r)) where
  Orderly-reply :
      (r : Result Response) (net' : p.Net) (req : Request) (w : World p)
      → IsAuthorised w.session_token req
      → Serves w
          (continue r
            (λ resp. finally (rest resp) (close_body p))
            (record w {
              net = net';
              sent = req ∷ w.sent;
              open_bodies = opened p r w.open_bodies;
            })).1
  unfolding finally close_body
  Orderly-reply (ok resp) net' req w a =
      let after =
        (h resp).at
          (record w { net = net'; sent = req ∷ w.sent; open_bodies = w.open_bodies + 1 }) in
      record {
        session_token = after.session_token;
        variables = after.variables;
        disk = after.disk;
        open_bodies = omega (arith, after.open_bodies);
        sent = Authorised-trans (more req a same) after.sent;
      }
  Orderly-reply (err e) net' req w a = record {
    session_token = refl;
    variables = refl;
    disk = refl;
    open_bodies = refl;
    sent = more req a same;
  }
  Orderly-reply (panic t) net' req w a = record {
    session_token = refl;
    variables = refl;
    disk = refl;
    open_bodies = refl;
    sent = more req a same;
  }

  Orderly-made :
      (o : Option Error) (req : Request) (w : World p)
      → IsAuthorised w.session_token req
      → Serves w
          (continue
            (made p o req)
            (λ q. client_do p q >>= λ resp. finally (rest resp) (close_body p))
            w).1
  unfolding client_do ◌>>=◌
  Orderly-made none req w a =
      Orderly-reply (p.exchange req w.net).0 (p.exchange req w.net).1 req w a
  Orderly-made (some e) req w a = Serves-refl w

  Orderly-send : (verb url body : String) → Orderly (send p verb url body rest)
  unfolding send ◌>>=◌
  Orderly-send verb url body = record { at = λ w. Orderly-made (p.new_request_error url) _ w refl }

ruleset orderly_rules = (
  Orderly-pure, Orderly-fail, Orderly-lift, Orderly-if, Orderly-guard, Orderly-bind, Orderly-send,
)

module _ (p : Platform) where
  get_identity-Orderly : (id : String) → Orderly (get_identity p id)
  unfolding get_identity
  get_identity-Orderly id = search orderly_rules

  read_created-Orderly : (r : Response) → Orderly (read_created p r)
  unfolding read_created
  read_created-Orderly r = search (orderly_rules, get_identity-Orderly)

  create_identity-Orderly : (name role : String) → Orderly (create_identity p name role)
  unfolding create_identity
  create_identity-Orderly name role = search (orderly_rules, read_created-Orderly)

  update_identity-Orderly : (id name role : String) → Orderly (update_identity p id name role)
  unfolding update_identity
  update_identity-Orderly id name role = search orderly_rules

  read_deleted-Orderly : (r : Response) → Orderly (read_deleted p r)
  unfolding read_deleted
  read_deleted-Orderly r = search orderly_rules

  delete_identity-Orderly : (id : String) → Orderly (delete_identity p id)
  unfolding delete_identity
  delete_identity-Orderly id = search (orderly_rules, read_deleted-Orderly)

  -- Whatever their outcome, CreateIdentity, GetIdentity, UpdateIdentity and DeleteIdentity leave the
  -- package's variables, its goroutines and the disk as they were, carry the session's token on every request that they send, and close the body of
  -- every reply.
  pub identities-Orderly :
      (id name role : String)
      → Orderly (create_identity p name role)
        × Orderly (get_identity p id)
        × Orderly (update_identity p id name role)
        × Orderly (delete_identity p id)
  identities-Orderly id name role = (
    create_identity-Orderly name role,
    get_identity-Orderly id,
    update_identity-Orderly id name role,
    delete_identity-Orderly id,
  )
