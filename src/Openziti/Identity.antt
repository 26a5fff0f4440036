-- ===== src/Openziti/Identity.antt =====
-- lib/openziti/identity.go: identities at the controller, over its HTTP interface.
pub mod Roles
pub mod Sessions
pub mod Creation
use ziti_livekit_example.Prelude.{String, Bool, true, List, [], ◌∷◌, ◌==◌, ◌<>◌, eqb, if◌then◌else◌}
use ziti_livekit_example.Outcome.{
  reason, Result, ok, err, Action, pure, fail, lift, guard, ◌>>=◌, ◌>>◌,
}
use ziti_livekit_example.Openziti.Platform.{
  Platform, World, Json, boolean, text, texts, object, end, field, Response, ZitiIdentity, send,
}

abbrev pub role_admin : String
role_admin = "admin"

abbrev pub role_enroller : String
role_enroller = "enroller"

abbrev pub role_device : String
role_device = "device"

abbrev pub role_device_pending_enroll : String
role_device_pending_enroll = "device-pending-enroll"

abbrev pub role_inactive : String
role_inactive = "inactive"

-- GetRoleAttributes, over `os.Getenv`
unfoldable pub get_role_attributes : (String → String) → String → Result (List String)
get_role_attributes getenv role =
    if role == role_admin
    then ok (
        (getenv "ZITI_SERVICE_API" <> ".dial")
        ∷ (getenv "ZITI_SERVICE_FRONTEND" <> ".dial")
        ∷ (getenv "ZITI_SERVICE_LIVEKIT_RTC" <> ".dial")
        ∷ (getenv "ZITI_SERVICE_LIVEKIT" <> ".dial")
        ∷ (getenv "ZITI_SERVICE_TURN" <> ".dial")
        ∷ (getenv "ZITI_SERVICE_ZAC" <> ".dial")
        ∷ [])
    else if role == role_enroller
    then ok ((getenv "ZITI_SERVICE_DMZ" <> ".dial") ∷ [])
    else if role == role_device_pending_enroll
    then ok ((getenv "ZITI_SERVICE_DMZ" <> ".dial") ∷ [])
    else if role == role_device
    then ok (
        (getenv "ZITI_SERVICE_LIVEKIT_RTC" <> ".dial")
        ∷ (getenv "ZITI_SERVICE_LIVEKIT" <> ".dial")
        ∷ (getenv "ZITI_SERVICE_NATS" <> ".dial")
        ∷ (getenv "ZITI_SERVICE_TURN" <> ".dial")
        ∷ [])
    else if role == role_inactive
    then ok []
    else err (reason "invalid role")

-- The map that CreateIdentity and UpdateIdentity marshal.
unfoldable pub identity_json : String → Bool → List String → Json
identity_json name is_admin attributes = object (
    field "isAdmin" (boolean is_admin) (
      field "name" (text name) (
        field "type" (text "User") (
          field "enrollment" (object (field "ott" (boolean true) end))
            (field "roleAttributes" (texts attributes) end)))))

module _ (p : Platform) where
  -- url := os.Getenv("ZITI_CTRL_URL") + "/edge/management/v1/identities"
  abbrev pub identities_url : String
  identities_url = p.getenv "ZITI_CTRL_URL" <> "/edge/management/v1/identities"

  -- GetIdentity
  unfoldable pub get_identity : String → Action (World p) ZitiIdentity
  get_identity id =
      send p "GET" (identities_url <> ("/" <> id)) ""
        λ resp. do body ← lift resp.body; lift (p.unmarshal_identity body)

  -- CreateIdentity after the reply to its POST
  unfoldable pub read_created : Response → Action (World p) (String × String)
  read_created resp = do
    body ← lift resp.body
    guard (eqb resp.status 201) (reason "failed to create openzity identity")
    r ← lift (p.unmarshal_created body)
    iden ← get_identity r.id
    pure (r.id, iden.jwt)

  -- CreateIdentity: the identity's id and its enrollment token
  unfoldable pub create_identity : String → String → Action (World p) (String × String)
  create_identity name role = do
    attributes ← lift (get_role_attributes p.getenv role)
    json ← lift (p.marshal (identity_json name (role == role_admin) attributes))
    send p "POST" identities_url json read_created

  -- UpdateIdentity
  unfoldable pub update_identity : String → String → String → Action (World p) (Unit {0})
  update_identity id name role = do
    attributes ← lift (get_role_attributes p.getenv role)
    json ← lift (p.marshal (identity_json name (role == role_admin) attributes))
    send p "PATCH" (identities_url <> ("/" <> id)) json λ resp. do
      body ← lift resp.body
      guard (eqb resp.status 200) (reason "failed to update openzity identity")

  -- DeleteIdentity after the reply: the body is read only to be logged
  unfoldable pub read_deleted : Response → Action (World p) (Unit {0})
  read_deleted resp =
      if eqb resp.status 200
      then pure tt
      else (lift resp.body >>= λ body. fail (reason "openziti delete failed"))

  -- DeleteIdentity
  unfoldable pub delete_identity : String → Action (World p) (Unit {0})
  delete_identity id = send p "DELETE" (identities_url <> ("/" <> id)) "" read_deleted
