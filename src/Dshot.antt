-- ===== src/Dshot.antt =====
-- The DShot protocol: frames, telemetry encoding, and the command processor.
pub mod Frame
pub mod Gcr
pub mod Commands
