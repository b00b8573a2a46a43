-- ===== src/Measure.antt =====
-- rm32/src/current.rs, filter.rs, units.rs and ntc.rs: from ADC counts to smoothed measurements.
pub mod Units
pub mod Current
pub mod Filter
pub mod Ntc
