-- ===== src/Openziti/Auth/ApiSession.antt =====
-- When CreateApiSession changes the session's token.
use ziti_livekit_example.Prelude.{String, ◌≡◌, ap, ◌∙◌, ◌<>◌, Option, none, some, arith}
use ziti_livekit_example.Outcome.{Error, ok, err, panic, ◌>>=◌}
use ziti_livekit_example.Openziti.Platform.{Platform, World, Fields}
use ziti_livekit_example.Openziti.Disk.{read_file, file_error}
use ziti_livekit_example.Outcome.Inversion.{bind-eq-ok, lift_bind-eq-ok, modify-eq-ok}
use ziti_livekit_example.Openziti.Auth.{id_map, authenticate_at, create_api_session}

module _ (p : Platform) where
  read_file-eq-ok :
      (path : String) (w : World p) {t : String} {w' : World p}
      → read_file p path w ≡ (ok t, w')
      → (w.disk.contents path ≡ some t) × (w ≡ w')
  unfolding read_file file_error
  read_file-eq-ok path w h = (ground arith, ap (λ x. x.1) h)

  id_map-eq-ok : (o : Option Fields) {fs : Fields} → id_map p o ≡ ok fs → o ≡ some fs
  unfolding id_map
  id_map-eq-ok (some fs) h = ground arith
  id_map-eq-ok none h = cc

  authenticate_at-eq-ok :
      (url : String) (c : p.Credentials) (w : World p) {t : String} {w' : World p}
      → authenticate_at p url c w ≡ (ok t, w')
      → p.authenticate url c w.net ≡ (ok t, w'.net)
  unfolding authenticate_at
  authenticate_at-eq-ok url c w h = ground arith

  -- Unless CreateApiSession succeeds, the session's token stays as it was.
  pub create_api_session_failed :
      (url path : String) (w : World p) {e : Error}
      → (create_api_session p url path w).0 ≡ err e
      → (create_api_session p url path w).1.session_token ≡ w.session_token
  unfolding create_api_session read_file ◌>>=◌
  create_api_session_failed url path w h = ground arith

  -- A successful CreateApiSession stores the token that the controller gave for the credentials of the
  -- identity file, at the management API of the controller's URL.
  pub create_api_session-eq-ok :
      (url path : String) (w : World p) {u : Unit {0}} {w' : World p}
      → create_api_session p url path w ≡ (ok u, w')
      → (file : String) × (id : Fields) × (credentials : p.Credentials) × (w.disk.contents
            (path <> ".json")
          ≡ some file)
        × (p.unmarshal_id file ≡ ok (some id))
        × (p.credentials_from_map id ≡ ok credentials)
        × (p.authenticate (url <> "/edge/management/v1") credentials w.net
            ≡ (ok w'.session_token, w'.net))
  unfolding create_api_session
  create_api_session-eq-ok url path w h =
      let (file, a, h1, k1) = bind-eq-ok _ _ w h in
      let (json, found, k2) = lift_bind-eq-ok _ _ a k1 in
      let (id, held, k3) = lift_bind-eq-ok _ _ a k2 in
      let (credentials, made, k4) = lift_bind-eq-ok _ _ a k3 in
      let (token, b, h5, k5) = bind-eq-ok _ _ a k4 in
      let (read, same) = read_file-eq-ok _ w h1 in
      let stored = modify-eq-ok _ k5 in
      (
        file,
        id,
        credentials,
        read,
        found ∙ ap ok (id_map-eq-ok json held),
        made,
        cc (
          authenticate_at-eq-ok _ credentials a h5,
          ap (λ (x : World p). x.net) same,
          ap (λ (x : World p). x.net) stored,
          ap (λ (x : World p). x.session_token) stored,
        ),
      )

  -- An identity file that is JSON but holds no object under "id" makes CreateApiSession panic.
  pub create_api_session_panics :
      (url path : String) (w : World p) {file : String}
      → (read_file p (path <> ".json") w).0 ≡ ok file
      → p.unmarshal_id file ≡ ok none
      → (create_api_session p url path w).0
        ≡ panic "interface conversion: interface {} is not map[string]interface {}"
  unfolding create_api_session read_file ◌>>=◌
  create_api_session_panics url path w h k = ground arith
