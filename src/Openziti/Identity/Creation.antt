-- ===== src/Openziti/Identity/Creation.antt =====
-- What a successful CreateIdentity and GetIdentity went through.
use ziti_livekit_example.Prelude.{String, ◌≡◌, sym, ap, ◌∙◌, ◌∷◌, List, ◌==◌, ◌<>◌, eqb, arith}
use ziti_livekit_example.Outcome.{ok}
use ziti_livekit_example.Outcome.Inversion.{
  lift_bind-eq-ok, guard_bind-eq-ok, bind-eq-ok, pure-eq-ok, lift-eq-ok,
}
use ziti_livekit_example.Openziti.Platform.{
  Platform, World, Request, Response, ZitiIdentity, close_body,
}
use ziti_livekit_example.Openziti.Platform.Send.{request, replied, send-eq-ok}
use ziti_livekit_example.Openziti.Identity.{
  role_admin, get_role_attributes, identity_json, identities_url, get_identity, read_created,
  create_identity,
}

module _ (p : Platform) where
  -- The two requests of CreateIdentity.
  abbrev pub post : World p → String → Request
  post w json = request p w "POST" (identities_url p) json

  abbrev pub fetch : World p → String → Request
  fetch w id = request p w "GET" (identities_url p <> ("/" <> id)) ""

  -- The POST was answered with status 201 and a body that names the identity, and the GET of that
  -- identity with one that holds the token.
  pub record Exchanged (w : World p) (json id jwt : String) : Type 0 where
    pub created : Response
    pub created_body : String
    pub net' : p.Net
    pub answered : p.exchange (post w json) w.net ≡ (ok created, net')
    pub status : created.status ≡ 201
    pub read : created.body ≡ ok created_body
    pub named : p.unmarshal_created created_body ≡ ok (record { id = id })
    pub fetched : Response
    pub fetched_body : String
    pub net'' : p.Net
    pub fetch_answered : p.exchange (fetch w id) net' ≡ (ok fetched, net'')
    pub fetch_read : fetched.body ≡ ok fetched_body
    pub iden : ZitiIdentity
    pub decoded : p.unmarshal_identity fetched_body ≡ ok iden
    pub token : iden.jwt ≡ jwt

  -- A successful GetIdentity had its request answered, and the body decoded.
  pub get_identity-eq-ok :
      (id : String) (w : World p) {iden : ZitiIdentity} {w' : World p}
      → get_identity p id w ≡ (ok iden, w')
      → (r : Response) × (text : String) × (net' : p.Net) × (p.exchange (fetch w id) w.net
          ≡ (ok r, net'))
        × (r.body ≡ ok text)
        × (p.unmarshal_identity text ≡ ok iden)
        × (w' ≡ close_body p (replied p w (fetch w id) net'))
  unfolding get_identity
  get_identity-eq-ok id w h =
      let (r, net', u, answered, run, closed) = send-eq-ok _ _ _ _ w h in
      let (text, read, rest) = lift_bind-eq-ok r.body _ _ run in
      let (decoded, same) = lift-eq-ok (p.unmarshal_identity text) rest in
      (r, text, net', answered, read, decoded, closed ∙ ap (close_body p) (sym same))

  read_created-eq-ok :
      (r : Response) (w : World p) {id jwt : String} {w' : World p}
      → read_created p r w ≡ (ok (id, jwt), w')
      → (text : String) × (iden : ZitiIdentity) × (r.status ≡ 201)
        × (r.body ≡ ok text)
        × (p.unmarshal_created text ≡ ok (record { id = id }))
        × (iden.jwt ≡ jwt)
        × (get_identity p id w ≡ (ok iden, w'))
  unfolding read_created
  read_created-eq-ok r w h =
      let (text, read, rest) = lift_bind-eq-ok r.body _ w h in
      let (status, rest') = guard_bind-eq-ok (eqb r.status 201) _ _ w rest in
      let (c, named, rest'') = lift_bind-eq-ok (p.unmarshal_created text) _ w rest' in
      let (iden, u, got, last) = bind-eq-ok (get_identity p c.id) _ w rest'' in
      let (pair, ended) = pure-eq-ok last in
      let same_id : c.id ≡ _ = ap (λ x. x.0) pair in
      (
        text,
        iden,
        ground arith,
        read,
        rw (← same_id) named,
        ap (λ x. x.1) pair,
        rw (← same_id, ← ended) got,
      )

  -- CreateIdentity gives an id and a token only for a role that has attributes, after a POST of
  -- the identity with those, asked to be an admin exactly for the role "admin", that was answered
  -- with status 201, and a GET of that id whose reply holds the token. Those two requests are all that
  -- it sends.
  pub create_identity-eq-ok :
      (name role : String) (w : World p) {id jwt : String} {w' : World p}
      → create_identity p name role w ≡ (ok (id, jwt), w')
      → (attributes : List String) × (json : String) × (get_role_attributes p.getenv role
          ≡ ok attributes)
        × (p.marshal (identity_json name (role == role_admin) attributes) ≡ ok json)
        × Exchanged w json id jwt
        × (w'.sent ≡ fetch w id ∷ post w json ∷ w.sent)
  unfolding create_identity close_body
  create_identity-eq-ok name role w h =
      let (attributes, granted, rest) = lift_bind-eq-ok (get_role_attributes p.getenv role) _ w h in
      let (json, marshalled, rest') =
        lift_bind-eq-ok (p.marshal (identity_json name (role == role_admin) attributes)) _ w rest in
      let (r, net', u, answered, run, closed) = send-eq-ok _ _ _ _ w rest' in
      let (text, iden, status, read, named, token, got) = read_created-eq-ok r _ run in
      let (f, text', net'', answered', read', decoded, closed') = get_identity-eq-ok _ _ got in
      (
        attributes,
        json,
        granted,
        marshalled,
        record {
          created = r;
          created_body = text;
          net' = net';
          answered = answered;
          status = status;
          read = read;
          named = named;
          fetched = f;
          fetched_body = text';
          net'' = net'';
          fetch_answered = answered';
          fetch_read = read';
          iden = iden;
          decoded = decoded;
          token = token;
        },
        ap (λ (x : World p). x.sent) closed ∙ ap (λ (x : World p). x.sent) closed',
      )
