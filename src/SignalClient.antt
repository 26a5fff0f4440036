-- ===== src/SignalClient.antt =====
-- lib/livekit-server-sdk/signalclient.go, whose validation goes through lib/openziti's client: the
-- websocket connection of a room, its reader, and the callbacks that it runs.
pub mod Types
pub mod Protocol
pub mod Reader
pub mod Connect
pub mod Interleaving
pub mod Overlay
pub mod Requests
