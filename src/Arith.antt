-- ===== src/Arith.antt =====
-- The arithmetic helpers of the core: exact division by constants, the bisecting `map` and the
-- absolute difference, the two checksums, and the delay loop.
pub mod Fast
pub mod Map
pub mod Crc
pub mod Delay
