-- ===== src/Ice/Gather/Order.antt =====
-- Which of an agent's URLs are gathered, in which order, and which are left out.
use ziti_livekit_example.Prelude.{
  ◌≡◌, refl, ap, ◌==◌, Bool, not, ◌&&◌, Bool-cases, inl, inr, List, [], ◌∷◌, if◌then◌else◌,
}
use ziti_livekit_example.Outcome.{Action, pure, ◌>>◌}
use ziti_livekit_example.Openziti.Platform.{Platform}
use ziti_livekit_example.Stdnet.{System}
use ziti_livekit_example.Ice.Types.{Uri, Libs, Agent, Config}
use ziti_livekit_example.Ice.Gather.{relay_url, go, use_of, step, is_turn, gather_relay}

-- The URLs of TURN servers.
abbrev pub turn_urls : List Uri → List Uri
turn_urls [] = []
turn_urls (url ∷ urls) = if is_turn url.scheme then url ∷ turn_urls urls else turn_urls urls

abbrev pub has_credentials : Uri → Bool
has_credentials url = not (url.username == "") && not (url.password == "")

-- Those in front of the first without a user or a password.
abbrev pub until_unusable : List Uri → List Uri
until_unusable [] = []
until_unusable (url ∷ urls) = if has_credentials url then url ∷ until_unusable urls else []

module _ {p : Platform} (sys : System p) (lib : Libs p) where
  -- A goroutine for each of some URLs.
  abbrev pub each : Config lib → List Uri → Action (Agent lib) (Unit {0})
  each cfg [] = pure tt
  each cfg (url ∷ urls) = go (relay_url sys lib cfg url) >> each cfg urls

  each_of :
      (cfg : Config lib) (url : Uri) (urls : List Uri) (rest : Action (Agent lib) (Unit {0}))
      → rest ≡ each cfg (until_unusable (turn_urls urls))
      → step (use_of url) (relay_url sys lib cfg url) rest
        ≡ each cfg (until_unusable (turn_urls (url ∷ urls)))
  unfolding use_of
  each_of cfg url urls rest h = elim (Bool-cases (is_turn url.scheme)) [
    | inr f ↦ rw f h
    | inl t ↦ elim (Bool-cases (url.username == "")) [
      | inl n ↦ rw t (rw n refl)
      | inr n ↦ elim (Bool-cases (url.password == "")) [
        | inl w ↦ rw t (rw n (rw w refl))
        | inr w ↦ rw t (rw n (rw w (ap (λ r. go (relay_url sys lib cfg url) >> r) h)))
      ]
    ]
  ]

  -- Relay candidates are gathered from the URLs of TURN servers in front of the first of these that has no
  -- user or no password, in their order, whatever becomes of each, and from no others.
  pub gather_relay-each :
      (cfg : Config lib) (urls : List Uri)
      → gather_relay sys lib cfg urls ≡ each cfg (until_unusable (turn_urls urls))
  unfolding gather_relay
  gather_relay-each cfg [] = refl
  gather_relay-each cfg (url ∷ urls) = each_of cfg url urls _ (gather_relay-each cfg urls)
