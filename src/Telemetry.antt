-- ===== src/Telemetry.antt =====
-- rm32/src/telemetry.rs and edt.rs: the serial packets, and the extended telemetry over DShot.
pub mod Packet
pub mod Edt
