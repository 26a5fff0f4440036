-- ===== src/Subscriber.antt =====
-- The program subscriber/main.go.
pub mod Session
pub mod TrackWriter
