-- ===== src/Motor/Duty.antt =====
-- rm32/src/control/state.rs, `DutyState`: the throttle-to-duty mapping, the ramp limiter and the
-- ceilings. u16 sums wrap as in the release profile. `clamp` of the standard library panics where
-- its lower bound is above the upper one, which is `none`.
pub mod Setpoint
pub mod Ramp
pub mod Compare
use rm.Prelude.{
  ℕ, ◌+◌, ◌-◌, ◌*◌, ◌/◌, Bool, true, false, ◌||◌, Option, none, some, ltb, leb, if◌then◌else◌, u8,
  u16, u32, sub16, shr, sat_add16, min_of,
}
use rm.Prelude.Int.{pos, as_u8, as_u16}
use rm.Arith.Map.{map}
use rm.Arith.Fast.{div10_u32, div2000_u32}
use rm.Platform.{Platform}
use rm.Constants.{
  dshot_max_throttle, throttle_min_signal, duty_scale_max, startup_zc_base, sine_slow_step_throttle,
  ramp_voltage_low_cv, ramp_voltage_high_cv, ramp_voltage_change_max, ramp_voltage_change_min,
  ramp_startup_threshold, ramp_fast_commutation_threshold, ramp_low_rpm_interval,
}

pub record DutyState : Type 0 where
  pub cycle : ℕ
  pub maximum : ℕ
  pub last : ℕ
  pub adjusted : ℕ
  pub min_startup : ℕ
  pub startup_max : ℕ
  pub minimum : ℕ
  pub max_change : ℕ
  pub ramp_count : ℕ
  pub ramp_divider : ℕ
  pub max_ramp_startup : ℕ
  pub max_ramp_low_rpm : ℕ
  pub max_ramp_high_rpm : ℕ
  pub sine_outputs_on : Bool
  pub active_brake_on : Bool

unfoldable pub init : DutyState
init = record {
  cycle = 0;
  maximum = 2000;
  last = 0;
  adjusted = 0;
  min_startup = 120;
  startup_max = 200;
  minimum = 5;
  max_change = 2;
  ramp_count = 0;
  ramp_divider = 0;
  max_ramp_startup = 2;
  max_ramp_low_rpm = 6;
  max_ramp_high_rpm = 16;
  sine_outputs_on = false;
  active_brake_on = false;
}

unfoldable pub set_duty_limits : DutyState → ℕ → ℕ → ℕ → DutyState
set_duty_limits d minimum min_startup startup_max = record d {
  minimum = minimum;
  min_startup = min_startup;
  startup_max = startup_max;
}

unfoldable pub apply_dead_time_override : DutyState → ℕ → DutyState
apply_dead_time_override d dead_time = record d {
  min_startup = u16 (d.min_startup + dead_time);
  minimum = u16 (d.minimum + dead_time);
  startup_max = u16 (d.startup_max + dead_time);
}

-- `v.clamp(lo, hi)` on u16.
unfoldable pub clamp : ℕ → ℕ → ℕ → Option ℕ
clamp lo hi v =
    if ltb hi lo then none else some (if ltb v lo then lo else if ltb hi v then hi else v)

abbrev pub input_min : Bool → ℕ
input_min sine_start = if sine_start then sine_slow_step_throttle else throttle_min_signal

abbrev pub duty_min : DutyState → Bool → ℕ
duty_min d sine_start =
    if sine_start then min_of (sat_add16 d.minimum 40) duty_scale_max else d.minimum

-- The mapped throttle, before the clamp of the startup phase.
unfoldable pub mapped_duty : DutyState → ℕ → Bool → ℕ
mapped_duty d input sine_start = as_u16 (
    map (pos input) (pos (input_min sine_start)) (pos dshot_max_throttle)
      (pos (duty_min d sine_start)) (pos duty_scale_max))

abbrev pub in_startup : ℕ → ℕ → Bool
in_startup zero_crosses stall_protection =
    ltb zero_crosses (shr startup_zc_base (min_of stall_protection 5))

unfoldable pub compute_setpoint : DutyState → ℕ → ℕ → ℕ → Bool → Option ℕ
compute_setpoint d input zero_crosses stall_protection sine_start =
    let setpoint = mapped_duty d input sine_start in
    if in_startup zero_crosses stall_protection
    then clamp d.min_startup d.startup_max setpoint
    else some setpoint

-- The duty change per ramp step for the battery voltage, the commutation interval and the profile.
unfoldable pub change_for : Platform → DutyState → ℕ → ℕ → ℕ → ℕ → Bool → ℕ
change_for p d battery_voltage commutation_interval zero_crosses average_interval voltage_based =
    if voltage_based
    then (let v_change = as_u8 (
          map (pos battery_voltage) (pos ramp_voltage_low_cv) (pos ramp_voltage_high_cv)
            (pos ramp_voltage_change_max) (pos ramp_voltage_change_min)) in
        if ltb (ramp_fast_commutation_threshold p) commutation_interval
        then v_change
        else min_of (v_change * 3) 255)
    else if ltb zero_crosses ramp_startup_threshold || ltb d.last ramp_startup_threshold
    then d.max_ramp_startup
    else if ltb (ramp_low_rpm_interval p) average_interval
    then d.max_ramp_low_rpm
    else d.max_ramp_high_rpm

-- The two tests that hold the duty within `change` of the last one; the second reads the cycle that
-- the first has stored.
unfoldable pub limit_step : ℕ → ℕ → ℕ → ℕ
limit_step last change cycle =
    let c = if ltb (u16 (last + change)) cycle then u16 (last + change) else cycle in
    if ltb (u16 (c + change)) last then sub16 last change else c

unfoldable pub ramp_limit : Platform → DutyState → ℕ → ℕ → ℕ → ℕ → Bool → DutyState
ramp_limit p d battery_voltage commutation_interval zero_crosses average_interval voltage_based =
    let change =
      change_for p d battery_voltage commutation_interval zero_crosses average_interval
        voltage_based in
    if ltb d.ramp_divider d.ramp_count
    then record d { ramp_count = 0; max_change = change; cycle = limit_step d.last change d.cycle }
    else record d { cycle = d.last }

unfoldable pub clamp_ceilings : DutyState → ℕ → ℕ → ℕ → DutyState
clamp_ceilings d stall_boost duty_maximum current_limit = record d {
  cycle = min_of (min_of (sat_add16 d.cycle stall_boost) duty_maximum) current_limit;
  maximum = duty_maximum;
}

unfoldable pub start_motor : DutyState → DutyState
start_motor d = record d { last = d.min_startup }

unfoldable pub kick_down : DutyState → DutyState
kick_down d = record d { last = min_of d.last (d.min_startup / 2) }

unfoldable pub increment_ramp_count : DutyState → DutyState
increment_ramp_count d = record d { ramp_count = u16 (d.ramp_count + 1) }

unfoldable pub apply_max_ramp : DutyState → ℕ → DutyState
apply_max_ramp d max_ramp =
    if ltb max_ramp 10
    then record d {
      ramp_divider = 9;
      max_ramp_startup = max_ramp;
      max_ramp_low_rpm = max_ramp;
      max_ramp_high_rpm = max_ramp;
    }
    else record d {
      ramp_divider = 0;
      max_ramp_startup = min_of d.max_ramp_startup (max_ramp / 10);
      max_ramp_low_rpm = min_of d.max_ramp_low_rpm (max_ramp / 10);
      max_ramp_high_rpm = min_of d.max_ramp_high_rpm (max_ramp / 10);
    }

unfoldable pub pwm_compare : DutyState → ℕ → ℕ
pwm_compare d tim1_arr = u16 (u32 (div2000_u32 (u32 (d.cycle * tim1_arr)) + 1))

unfoldable pub brake_compare : ℕ → ℕ → ℕ
brake_compare drag_brake_strength tim1_arr =
    u16 (tim1_arr - div10_u32 (u32 (drag_brake_strength * tim1_arr)))

unfoldable pub finalize : DutyState → DutyState × ℕ
finalize d = (record d { last = d.cycle }, d.cycle)
