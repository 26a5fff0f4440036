-- ===== src/RoomService.antt =====
-- lib/livekit-server-sdk/roomclient.go and auth.go, over lib/livekit-protocol/livekit's Twirp clients, whose
-- requests go through lib/openziti's client: the calls with which the programs begin.
pub mod Types
pub mod Errors
pub mod Call
pub mod Client
