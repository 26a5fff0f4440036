-- ===== src/Publisher.antt =====
-- The program publisher/main.go.
pub mod Frames
pub mod Session
pub mod Triangle
