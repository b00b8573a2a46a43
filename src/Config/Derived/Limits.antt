-- ===== src/Config/Derived/Limits.antt =====
-- The duty limits that rm32/src/config.rs derives, and what they mean for the startup clamp of
-- rm32/src/control/state.rs.
use rm.Prelude.{ℕ, ◌+◌, ◌*◌, ◌/◌, ◌≤◌, ◌<◌, ◌≡◌, arith, Bool, true, false, none}
use rm.Config.{Config, field}
use rm.Config.At
use rm.Config.Derived.{MotorConfig, derive_motor_config}
use rm.Motor.Duty.{DutyState, set_duty_limits, compute_setpoint, in_startup}
use rm.Motor.Duty.Setpoint.{compute_setpoint_startup}

-- The duty state with the limits of a derived configuration, as the port installs them.
pub limited_by : DutyState → MotorConfig → DutyState
unfolding set_duty_limits
limited_by d m = set_duty_limits d m.minimum_duty m.min_startup_duty m.startup_max_duty

-- Without the startup boost, every configuration has duty limits in order: the minimum duty is at
-- most the startup minimum, which is at most the startup maximum, which is at most 900; a dead-time
-- override, where there is one, is at most 200.
pub derive_motor_config_ordered :
    (c : Config) (arr dead kv : ℕ)
    → let m = derive_motor_config c arr dead kv false in
      (m.minimum_duty ≤ m.min_startup_duty)
      × (m.min_startup_duty ≤ m.startup_max_duty)
      × (m.startup_max_duty ≤ 900)
      × (m.dead_time_override ≤ 200)
unfolding derive_motor_config
derive_motor_config_ordered c arr dead kv = ground arith

-- With the startup boost, the startup minimum exceeds the startup maximum for every configuration
-- whose startup power and PWM frequency together ask for more than 200 above the base; then the
-- setpoint of the startup phase has no value, since the clamp panics on reversed bounds.
pub startup_boost_panics :
    (c : Config) (d : DutyState) (arr dead kv input zc stall : ℕ) (sine : Bool)
    → 49 < field c At.startup_power
    → field c At.startup_power < 151
    → 200 < field c At.startup_power + field c At.pwm_frequency * 100 / 24
    → in_startup zc stall ≡ true
    → compute_setpoint (limited_by d (derive_motor_config c arr dead kv true)) input zc stall sine
      ≡ none
unfolding limited_by derive_motor_config
startup_boost_panics c d arr dead kv input zc stall sine lo hi much start =
    (compute_setpoint_startup (limited_by d (derive_motor_config c arr dead kv true)) input zc stall
        sine start).1
      (ground arith)
