-- ===== src/Ice/Policy.antt =====
-- Which types of candidates an agent gathers: createAgent of lib/pion-webrtc/icegatherer.go, by the
-- policy of the connection, and initWithDefaults of lib/pion-ice/agent_config.go.
use ziti_livekit_example.Prelude.{Bool, true, false, List, [], ◌∷◌}
use ziti_livekit_example.Livekit.{IceTransportPolicy, all, relay as relay_policy}
use ziti_livekit_example.Ice.Types.{CandidateType, host, server_reflexive, relay}

-- The types that createAgent configures, of a lite agent or not.
abbrev pub policy_types : Bool → IceTransportPolicy → List CandidateType
policy_types true policy = host ∷ []
policy_types false relay_policy = relay ∷ []
policy_types false all = []

-- The types that an agent gets: those of its configuration, or all if there are none.
abbrev pub agent_types : List CandidateType → List CandidateType
agent_types [] = host ∷ server_reflexive ∷ relay ∷ []
agent_types (t ∷ ts) = t ∷ ts
