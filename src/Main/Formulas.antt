-- ===== src/Main/Formulas.antt =====
-- The pure formulas of rm32/src/main_state.rs. `clamp` has ordered constant bounds here, so that it
-- never panics.
pub mod Ceilings
use rm.Prelude.{
  ℕ, ◌+◌, ◌-◌, ◌*◌, ◌/◌, Bool, true, false, not, ◌&&◌, ltb, leb, ◌==◌, if◌then◌else◌, u16, u32,
  min_of,
}
use rm.Prelude.Int.{ℤ, pos, negsuc, ◌-ℤ◌, ◌+ℤ◌, ltb_ℤ, pos_part, quot, as_u8, as_u16}
use rm.Platform.{Platform, am32_ticks_to, ticks_to_am32}
use rm.Arith.Map.{map}
use rm.Constants.{variable_pwm2_lo, variable_pwm2_hi, filter_slow_interval, filter_fast_interval}
use rm.Motor.Pids.{clamp_ℤ}
use rm.Shared.State.{as_u32}

unfoldable pub reverse_speed_threshold : Platform → ℕ → ℕ
reverse_speed_threshold p motor_kv =
    u16 (am32_ticks_to p (as_u32 (map (pos motor_kv) (pos 300) (pos 3000) (pos 1000) (pos 500))))

unfoldable pub variable_pwm_mode1 : Platform → ℕ → ℕ → ℕ
variable_pwm_mode1 p commutation_interval timer1_max_arr =
    let low = timer1_max_arr / 2 in
    let interval = min_of (ticks_to_am32 p commutation_interval) 2147483647 in
    as_u16 (
      clamp_ℤ (pos low) (pos timer1_max_arr)
        (map (pos interval) (pos 96) (pos 200) (pos low) (pos timer1_max_arr)))

-- `average_interval.clamp(P::VARIABLE_PWM2_LO, P::VARIABLE_PWM2_HI)`, zero being the slow end.
abbrev pub bounded_interval : Platform → ℕ → ℕ
bounded_interval p average =
    if average == 0
    then variable_pwm2_hi p
    else if ltb average (variable_pwm2_lo p)
    then variable_pwm2_lo p
    else if ltb (variable_pwm2_hi p) average
    then variable_pwm2_hi p
    else average

unfoldable pub variable_pwm_mode2 : Platform → ℕ → ℕ → ℕ
variable_pwm_mode2 p average_interval cpu_mhz =
    let bounded = bounded_interval p average_interval in
    let average = if p.timer_hz == 2000000 then bounded else u32 (bounded * 2000000 / p.timer_hz) in
    u16 (u32 (average * (cpu_mhz / 9)))

abbrev max_of : ℕ → ℕ → ℕ
max_of a b = if leb a b then b else a

-- `(600000 / e_com_time) / 10` for a positive period.
abbrev k_erpm_of : ℤ → ℕ
k_erpm_of e_com_time = if ltb_ℤ (pos 0) e_com_time then 600000 / pos_part e_com_time / 10 else 0

-- `.clamp(1, 2000) as u16`
abbrev pub as_ceiling : ℤ → ℕ
as_ceiling v = as_u16 (clamp_ℤ (pos 1) (pos 2000) v)

unfoldable pub erpm_ceiling : ℤ → ℕ → ℕ → ℕ
erpm_ceiling e_com_time motor_kv motor_poles =
    let div = max_of (32 / max_of motor_poles 1) 1 in
    let low_rpm = motor_kv / 100 / div in
    let high_rpm = motor_kv / 12 / div in
    let k_erpm = k_erpm_of e_com_time in
    if ltb motor_kv 300
    then 2000
    else if ltb 0 k_erpm && ltb low_rpm high_rpm
    then as_ceiling (map (pos k_erpm) (pos low_rpm) (pos high_rpm) (pos 400) (pos 2000))
    else 2000

unfoldable pub temperature_ceiling : ℤ → ℕ → ℕ
temperature_ceiling degrees_celsius temperature_limit =
    if ltb_ℤ (pos temperature_limit) degrees_celsius
    then as_ceiling (
        map degrees_celsius (pos temperature_limit -ℤ pos 10) (pos (temperature_limit + 10))
          (pos 1000) (pos 1))
    else 2000

unfoldable pub duty_ceiling : ℤ → ℕ → ℕ → ℤ → ℕ → ℕ
unfolding erpm_ceiling temperature_ceiling
duty_ceiling e_com_time motor_kv motor_poles degrees_celsius temperature_limit =
    min_of (erpm_ceiling e_com_time motor_kv motor_poles)
      (temperature_ceiling degrees_celsius temperature_limit)

-- The filter level for the zero crosses, the commutation interval and the average interval.
unfoldable pub filter_level_for : Platform → ℕ → ℕ → ℕ → ℕ
filter_level_for p zero_crosses commutation_interval average_interval =
    let average = min_of (ticks_to_am32 p average_interval) 2147483647 in
    if ltb zero_crosses 100 && ltb (filter_slow_interval p) commutation_interval
    then 12
    else if ltb commutation_interval (filter_fast_interval p)
    then 2
    else as_u8 (map (pos average) (pos 100) (pos 500) (pos 3) (pos 12))
