-- ===== src/Main/Publish.antt =====
-- The settings that `MainState::tick` of rm32/src/main_state.rs publishes to the interrupts at the
-- end of a tick, and the LED.
use rm.Prelude.{ℕ, ◌+◌, ◌*◌, Bool, ◌&&◌, ltb, leb, ◌==◌, ◌!=◌, if◌then◌else◌, u8}
use rm.Prelude.Int.{pos, as_u8}
use rm.Platform.{Platform}
use rm.Arith.Map.{map}
use rm.Constants.{led_blink_half_period, led_high_throttle}
use rm.Config.{field, temp_advance}
use rm.Config.At
use rm.Shared.State.{SharedState}
use rm.Main.Formulas.{variable_pwm_mode1, variable_pwm_mode2, duty_ceiling, filter_level_for}
use rm.Main.State.{MainState, Loop, Snapshot}

unfoldable pub pwm_period : Platform → MainState → SharedState → ℕ
pwm_period p m s =
    let mode = field m.config At.variable_pwm in
    if mode == 1
    then variable_pwm_mode1 p s.commutation_interval m.timer1_max_arr
    else if mode == 2
    then variable_pwm_mode2 p m.timing.average_interval m.cpu_mhz
    else m.timer1_max_arr

-- Stronger confirmation during the first five zero crosses.
unfoldable pub bemf_counts : MainState → ℕ → ℕ
bemf_counts m zero_crosses =
    let target = m.target_min_bemf_counts in
    if ltb zero_crosses 5
    then u8 (if field m.config At.bi_direction != 0 then target + 1 else target * 2)
    else target

unfoldable pub advance_level_for : MainState → SharedState → ℕ
advance_level_for m s =
    if field m.config At.auto_advance != 0
    then as_u8 (map (pos s.duty_cycle_setpoint) (pos 100) (pos 2000) (pos 13) (pos 23))
    else temp_advance m.config

unfoldable pub led_level : Platform → ℕ → ℕ → Bool
led_level p input phase =
    if leb 47 input && ltb input led_high_throttle
    then leb (led_blink_half_period p) phase
    else ltb led_high_throttle input

unfoldable pub publish_stage : Platform → Snapshot → Loop → Loop
publish_stage p h l =
    let m = l.main in
    let s = l.shared in
    record l {
      shared = record s {
        tim1_arr = pwm_period p m s;
        duty_maximum =
            duty_ceiling h.e_com m.motor_kv (field m.config At.motor_poles)
              m.measurements.degrees_celsius (field m.config At.temperature_limit);
        min_bemf_counts = bemf_counts m h.zc;
        filter_level = filter_level_for p h.zc s.commutation_interval m.timing.average_interval;
        auto_advance = advance_level_for m s;
      };
      led = led_level p s.adjusted_input m.led_phase;
    }
