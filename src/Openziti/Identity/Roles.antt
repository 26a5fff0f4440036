-- ===== src/Openziti/Identity/Roles.antt =====
-- What GetRoleAttributes gives for each role.
use ziti_livekit_example.Prelude.{
  String, ◌≡◌, refl, ◌⊎◌, inl, inr, ◌<>◌, List, All, arith, Text-cases,
}
use ziti_livekit_example.Outcome.{ok, err, reason}
use ziti_livekit_example.Openziti.Identity.{
  role_admin, role_enroller, role_device, role_device_pending_enroll, role_inactive,
  get_role_attributes,
}

-- One of the five role constants.
abbrev pub IsRole : String → Type 0
IsRole r =
    (r ≡ role_admin)
    ⊎ (r ≡ role_enroller)
    ⊎ (r ≡ role_device)
    ⊎ (r ≡ role_device_pending_enroll)
    ⊎ (r ≡ role_inactive)

-- The dial attribute of a service that the environment names.
abbrev pub IsDial : (String → String) → String → Type 0
IsDial getenv a = (k : String) × (a ≡ getenv k <> ".dial")

-- A role of the five has attributes, each the dial attribute of a service named in the
-- environment; any other text is refused with "invalid role".
pub get_role_attributes_cases :
    (getenv : String → String) (role : String)
    → (IsRole role
        × ((l : List String) × (get_role_attributes getenv role ≡ ok l) × All (IsDial getenv) l))
      ⊎ ((¬ IsRole role) × (get_role_attributes getenv role ≡ err (reason "invalid role")))
unfolding get_role_attributes
get_role_attributes_cases getenv role = elim (Text-cases role role_admin) [
  | inl e ↦ inl (
    inl e,
    rw e
        (_, refl, ((_, refl), ((_, refl), ((_, refl), ((_, refl), ((_, refl), ((_, refl), tt))))))),
  )
  | inr a ↦ elim (Text-cases role role_enroller) [
    | inl e ↦ inl (inr (inl e), rw e (_, refl, ((_, refl), tt)))
    | inr b ↦ elim (Text-cases role role_device_pending_enroll) [
      | inl e ↦ inl (inr (inr (inr (inl e))), rw e (_, refl, ((_, refl), tt)))
      | inr c ↦ elim (Text-cases role role_device) [
        | inl e ↦ inl (
          inr (inr (inl e)),
          rw e (_, refl, ((_, refl), ((_, refl), ((_, refl), ((_, refl), tt))))),
        )
        | inr d ↦ elim (Text-cases role role_inactive) [
          | inl e ↦ inl (inr (inr (inr (inr e))), rw e (_, refl, tt))
          | inr f ↦ inr (λ h. ground (arith, a.0, b.0, c.0, d.0, f.0), rw (a.1, b.1, c.1, d.1, f.1))
        ]
      ]
    ]
  ]
]
