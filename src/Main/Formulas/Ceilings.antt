-- ===== src/Main/Formulas/Ceilings.antt =====
-- The ranges of the published duty ceiling and PWM period.
use rm.Prelude.{ℕ, ◌/◌, ◌≤◌, Bool, true, false, arith, ltb, if◌then◌else◌, min_of}
use rm.Prelude.Int.{ℤ, pos, negsuc, as_u16}
use rm.Platform.{Platform}
use rm.Motor.Pids.{clamp_ℤ}
use rm.Main.Formulas.{
  erpm_ceiling, temperature_ceiling, duty_ceiling, variable_pwm_mode1, as_ceiling,
}

clamped :
    (low high : ℕ) (v : ℤ)
    → low ≤ high
    → high ≤ 65535
    → (low ≤ as_u16 (clamp_ℤ (pos low) (pos high) v))
      × (as_u16 (clamp_ℤ (pos low) (pos high) v) ≤ high)
unfolding clamp_ℤ as_u16
clamped low high (pos n) order small = ground arith
clamped low high (negsuc n) order small = ground arith

ceiling : (v : ℤ) → (1 ≤ as_ceiling v) × (as_ceiling v ≤ 2000)
ceiling v = clamped 1 2000 v (omega arith) (omega arith)

under_both :
    (a b : ℕ) → (1 ≤ a) × (a ≤ 2000) → (1 ≤ b) × (b ≤ 2000) → (1 ≤ min_of a b) × (min_of a b ≤ 2000)
under_both a b (la, ha) (lb, hb) = ground arith

either :
    (b : Bool) (v : ℕ)
    → (1 ≤ v) × (v ≤ 2000)
    → (1 ≤ (if b then v else 2000)) × ((if b then v else 2000) ≤ 2000)
either true v h = h
either false v h = omega arith

low_speed :
    (b : Bool) (v : ℕ)
    → (1 ≤ v) × (v ≤ 2000)
    → (1 ≤ (if b then 2000 else v)) × ((if b then 2000 else v) ≤ 2000)
low_speed true v h = omega arith
low_speed false v h = h

-- The ceiling that main publishes for the duty is never zero and never above full scale, for every
-- period, temperature and configuration: no limit stops the motor altogether.
pub duty_ceiling_range :
    (e_com_time : ℤ) (motor_kv motor_poles : ℕ) (degrees_celsius : ℤ) (temperature_limit : ℕ)
    → (1 ≤ duty_ceiling e_com_time motor_kv motor_poles degrees_celsius temperature_limit)
      × (duty_ceiling e_com_time motor_kv motor_poles degrees_celsius temperature_limit ≤ 2000)
unfolding duty_ceiling erpm_ceiling temperature_ceiling
duty_ceiling_range e_com_time motor_kv motor_poles degrees_celsius temperature_limit =
    under_both _ _ (low_speed (ltb motor_kv 300) _ (either _ _ (ceiling _)))
      (either _ _ (ceiling _))

-- The interval-scaled PWM period lies between half of the configured one and the configured one.
pub variable_pwm_mode1_range :
    (p : Platform) (commutation_interval timer1_max_arr : ℕ)
    → timer1_max_arr ≤ 65535
    → (timer1_max_arr / 2 ≤ variable_pwm_mode1 p commutation_interval timer1_max_arr)
      × (variable_pwm_mode1 p commutation_interval timer1_max_arr ≤ timer1_max_arr)
unfolding variable_pwm_mode1
variable_pwm_mode1_range p commutation_interval arr small =
    clamped (arr / 2) arr _ (omega arith) small
