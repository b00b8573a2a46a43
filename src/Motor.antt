-- ===== src/Motor.antt =====
-- The parts of the core that drive the motor.
pub mod Mode
pub mod Commutation
pub mod Pid
pub mod Pids
pub mod Duty
pub mod Bemf
