-- ===== src/Shared.antt =====
-- rm32/src/shared_state.rs and shared_comm.rs: the state that the interrupts and the main loop share.
pub mod Action
pub mod Queue
pub mod State
