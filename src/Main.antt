-- ===== src/Main.antt =====
-- rm32/src/main_state.rs: the state of the main loop and its tick over the shared state.
pub mod Formulas
pub mod State
pub mod Protection
pub mod Service
pub mod Publish
pub mod Tick
pub mod Shutdown
