-- ===== src/Ice.antt =====
-- lib/pion-ice, whose agent was made to open its connection to a TURN server at the server's address,
-- so that stdnet dials it through ziti: gather.go, and of agent.go and candidate_relay.go what
-- it uses there.
pub mod Types
pub mod Relay
pub mod Policy
pub mod Gather
