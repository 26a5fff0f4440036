-- ===== src/Openziti.antt =====
-- The package lib/openziti: one module for each of its files, and what it takes from outside.
pub mod Platform
pub mod Setup
pub mod Auth
pub mod Disk
pub mod Enroll
pub mod Identity
