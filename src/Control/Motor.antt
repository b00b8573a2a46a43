-- ===== src/Control/Motor.antt =====
-- The state that the handlers of rm32/src/control/isr_logic.rs work on, and what they read from the
-- hardware. `calls` lists the calls of the hardware traits, the newest first.
use rm.Prelude.{ℕ, Bool, List, [], ◌∷◌, ◌==◌, ◌!=◌, if◌then◌else◌}
use rm.Prelude.Int.{ℤ}
use rm.Platform.{Platform, e_com_us_to_avg_ticks}
use rm.Constants.{throttle_min_signal, sine_entry_throttle}
use rm.Config.{Config, field}
use rm.Config.At
use rm.Bridge.{HalCall, PwmMode, diode, complementary, select_phase, floating_phase}
use rm.Motor.Commutation.{Commutation}
use rm.Motor.Bemf.{BemfState}
use rm.Motor.Duty.{DutyState}
use rm.Shared.State.{SharedState, e_com_time_of}

-- The mutable part of `MotorContext`.
pub record MotorContext : Type 0 where
  pub shared : SharedState
  pub commutation : Commutation
  pub bemf : BemfState
  pub duty : DutyState
  pub armed_timeout_count : ℕ
  pub calls : List HalCall

-- What one control tick reads: the interval timer at its three reads, and the comparator.
pub record Readings : Type 0 where
  pub count_at_entry : ℕ
  pub count_at_poll : ℕ
  pub count_at_exit : ℕ
  pub comp_level : Bool

-- The calls of `cs`, one after the other.
abbrev pub emit : List HalCall → List HalCall → List HalCall
emit done [] = done
emit done (c ∷ cs) = emit (c ∷ done) cs

abbrev pub emits : MotorContext → List HalCall → MotorContext
emits m cs = record m { calls = emit m.calls cs }

unfoldable pub pwm_mode : Config → PwmMode
pwm_mode c = if field c At.comp_pwm == 0 then diode else complementary

abbrev pub sine_start : Config → Bool
sine_start c = field c At.use_sine_start != 0

abbrev pub start_threshold : Config → ℕ
start_threshold c = if sine_start c then sine_entry_throttle else throttle_min_signal

-- The call of `route_bemf` for a sector.
abbrev pub route_bemf : Commutation → HalCall
route_bemf c = select_phase (floating_phase c.step) c.rising

abbrev pub average_interval : Platform → SharedState → ℤ
average_interval p s = e_com_us_to_avg_ticks p (e_com_time_of s)
