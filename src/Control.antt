-- ===== src/Control.antt =====
-- rm32/src/control/isr_logic.rs: the control tick, its fast path, the comparator interrupt and the
-- commutation timer, over the shared state, the motor's own state and the hardware calls.
pub mod Motor
pub mod Stages
pub mod Outputs
pub mod Tick
pub mod Steady
pub mod Comparator
pub mod Timer
