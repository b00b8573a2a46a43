-- ===== src/Config/Derived.antt =====
-- rm32/src/config.rs, `derive_motor_config`: the duty limits and the other runtime settings that are
-- computed from the configuration and the board. The results are u16; the divisor of the PWM
-- frequency is at least 8 * 100 / 6, so no division by zero is met.
pub mod Limits
use rm.Prelude.{
  ℕ, ◌+◌, ◌-◌, ◌*◌, ◌/◌, Bool, true, false, ◌&&◌, ◌||◌, ltb, leb, ◌==◌, if◌then◌else◌, u16, min_of,
}
use rm.Config.{Config, field}
use rm.Config.At

pub record MotorConfig : Type 0 where
  pub minimum_duty : ℕ
  pub min_startup_duty : ℕ
  pub startup_max_duty : ℕ
  pub timer1_max_arr : ℕ
  pub dead_time_override : ℕ
  pub current_kp : ℕ
  pub current_ki : ℕ
  pub current_kd : ℕ
  pub motor_kv : ℕ
  pub low_cell_volt_cutoff : ℕ
  pub servo_low : ℕ
  pub servo_high : ℕ
  pub servo_neutral : ℕ

abbrev pub minimum_duty_base : Config → ℕ
minimum_duty_base c =
    let mdc = field c At.minimum_duty_cycle in if ltb 0 mdc && ltb mdc 51 then mdc * 10 else 0

abbrev pub min_startup_base : Config → ℕ
min_startup_base c =
    let sp = field c At.startup_power in
    if ltb 49 sp && ltb sp 151 then minimum_duty_base c + sp else minimum_duty_base c

abbrev pub rc_boost : Config → ℕ
rc_boost c = if field c At.rc_car_reverse == 0 then 0 else 50

abbrev pub max_arr : Config → ℕ → ℕ
max_arr c default_arr =
    let pf = field c At.pwm_frequency in
    if ltb 7 pf && ltb pf 145 then u16 (default_arr * 400 / (pf * 100 / 6)) else default_arr

abbrev pub brake_dead_time : Config → ℕ → ℕ
brake_dead_time c dead_time =
    let dbs = field c At.driving_brake_strength in
    if dbs == 0 || ltb 9 dbs then 0 else min_of (dead_time + (150 - dbs * 10)) 200

unfoldable pub derive_motor_config : Config → ℕ → ℕ → ℕ → Bool → MotorConfig
derive_motor_config c default_arr dead_time kv_divider startup_boost =
    let pf = field c At.pwm_frequency in
    let min_startup =
      if startup_boost then min_startup_base c + 200 + pf * 100 / 24 else min_startup_base c in
    let minimum =
      if startup_boost then minimum_duty_base c + 50 + pf * 50 / 24 else minimum_duty_base c in
    let kv_div = if kv_divider == 0 then 1 else kv_divider in
    record {
      minimum_duty = minimum + rc_boost c;
      min_startup_duty = min_startup + rc_boost c;
      startup_max_duty = minimum_duty_base c + 400;
      timer1_max_arr = max_arr c default_arr;
      dead_time_override = brake_dead_time c dead_time;
      current_kp = field c At.current_p * 2;
      current_ki = field c At.current_i;
      current_kd = field c At.current_d * 2;
      motor_kv = (field c At.motor_kv * 40 + 20) / kv_div;
      low_cell_volt_cutoff = field c At.low_cell_volt_cutoff + 250;
      servo_low = field c At.servo_low_threshold * 2 + 750;
      servo_high = field c At.servo_high_threshold * 2 + 1750;
      servo_neutral = field c At.servo_neutral + 1374;
    }
