-- ===== src/Examples.antt =====
-- Concrete surroundings for the programs, and runs in them.
pub mod Files
pub mod Media
pub mod Network
pub mod Signals
pub mod Surroundings
pub mod Controller
pub mod Websocket
pub mod Interleavings
pub mod Restarts
pub mod Overlay
pub mod RoomService
pub mod Ice
