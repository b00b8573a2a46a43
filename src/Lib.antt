-- ===== src/Lib.antt =====
-- A verification library for the core crate of an electronic speed controller, rm32/src.
--
-- The firmware reads a throttle signal, maps it to a duty cycle, and commutates a three-phase motor
-- from the zero crossings of its back EMF. A captured burst of edges goes to the transfer dispatcher,
-- which detects the protocol, decodes DShot packets or measures servo pulses, and reports a throttle
-- or a command; commands change the configuration; the throttle goes through the input pipeline, the
-- duty computation and the ramp limiter to the compare value of the PWM timer; the back-EMF filter
-- and the commutation state turn zero crossings into steps and intervals, and the PID controllers
-- correct the duty. The parts are functions on their state records, which the callers thread through.
--
-- Files, and the source that each models:
--   Prelude           shared names, Boolean tests, lists, unsigned words, bits, signed numbers
--   Platform          rm32/src/platform.rs: a port's clocks and the conversions of time
--   Constants         rm32/src/constants.rs
--   Arith             rm32/src/fast_math.rs (Fast), functions.rs: map (Map), the checksums with that
--                     of crsf.rs (Crc), delay_micros_on (Delay)
--   Config            rm32/src/config.rs: the 192 bytes, migration, normalisation; Config.Derived:
--                     derive_motor_config; Config.At: the offsets of the fields
--   Dshot             rm32/src/dshot.rs: unpack and decode_frame (Frame), the GCR word and telemetry
--                     (Gcr); rm32/src/dshot_commands.rs (Commands)
--   Motor             rm32/src/motor_mode.rs (Mode), commutation.rs (Commutation), pid.rs (Pid),
--                     control/state.rs: PidState (Pids), DutyState (Duty), BemfState (Bemf)
--   Input             rm32/src/control/input.rs: process_input; Input.Mapping: input_mapping.rs
--   Signal            rm32/src/signal.rs
--   Servo             rm32/src/servo.rs
--   Transfer          rm32/src/transfer.rs: process and process_packet; the helpers (Steps), and what
--                     process writes out again instead of calling them (Burst)
--   Shared            rm32/src/shared_state.rs and shared_comm.rs: the cells (State), the requested
--                     interrupt action (Action), the configuration write queue (Queue)
--   Measure           rm32/src/units.rs (Units), current.rs (Current), filter.rs (Filter), ntc.rs (Ntc)
--   Bridge            rm32/src/bridge.rs: the six-step table; hal.rs: the floating phase, the calls
--   Brushed           rm32/src/brushed.rs
--   Control           rm32/src/control/isr_logic.rs: the state of control/context.rs (Motor), the
--                     stages of ten_khz_tick in two halves (Stages, Outputs) and the tick (Tick), its
--                     fast path (Steady), the comparator interrupt (Comparator), the commutation
--                     timer (Timer)
--   Telemetry         rm32/src/telemetry.rs (Packet), edt.rs (Edt)
--   Main              rm32/src/main_state.rs: the formulas (Formulas), the state (State), the tick in
--                     stages (Protection, Service, Publish) and as a whole (Tick); the main loop and
--                     the control interrupt together (Shutdown)
--   Examples          concrete runs
-- A function has the name of its source function. The children of a module hold its laws.
--
-- Numbers: u8, u16 and u32 values are native natural numbers with the wrap-around of the release
-- profile written out; i32 values are integers with two's complement wrap-around. A call that panics
-- in every profile (`clamp` with reversed bounds, a write behind the end of a slice) gives `none`.
-- Fuel: the loop of `map` has 33 rounds, enough for an interval of 2 ^ 32 that each round halves.
-- Other loops run over a list or a fixed count. The free-running counter that `delay_micros_on` reads
-- is a list of readings.
--
-- A call of a hardware trait is an entry in a list, the newest first; what a handler reads from the
-- hardware is an argument. The main loop and each interrupt run as one step over the shared cells,
-- except for the configuration write queue, where Shared.Queue.Steps lets the two sides interleave
-- at single loads and stores, in one order for both. The conversions of the fixed-point crate are a
-- record of functions with their documented values as laws.
--
-- Not modelled: interleavings of other cells, the forwarding of the shared-state traits, the dispatch
-- of a transfer action, the CRSF parser, tones, sine tables and lights, the formula of the internal
-- temperature sensor, and the port crates, which are drivers and glue.
pub mod Prelude
pub mod Arith
pub mod Platform
pub mod Constants
pub mod Config
pub mod Dshot
pub mod Motor
pub mod Shared
pub mod Measure
pub mod Bridge
pub mod Brushed
pub mod Control
pub mod Telemetry
pub mod Main
pub mod Input
pub mod Signal
pub mod Servo
pub mod Transfer
pub mod Examples
