-- ===== src/Examples/ControlTickRelease.antt =====
-- Runs of the theorems of Control.Tick.Release on concrete inputs.
use rm.Control.Motor.{MotorContext, sine_start}
use rm.Control.Tick.{ten_khz_tick}
use rm.Control.Tick.Release.{ten_khz_tick_released}
use rm.Examples.Data.{blank, board}
use rm.Examples.Motors.{parked_motor, tick_reads}
use rm.Motor.Mode.{armed, stepper_sine}
use rm.Prelude.{arith, false, if◌then◌else◌, refl, some, ◌≡◌}
use rm.Shared.Action.{action_from_u8}

ten_khz_tick_released_example :
    (n : MotorContext) × (ten_khz_tick board blank false tick_reads parked_motor ≡ some n)
    × ((n.shared.motor_mode ≡ (if sine_start blank then stepper_sine else armed))
        × (n.shared.duty_cycle_setpoint ≡ 0)
        × (n.shared.zero_crosses ≡ 0))
unfolding action_from_u8
ten_khz_tick_released_example =
    ten_khz_tick_released board blank false tick_reads parked_motor refl refl (ground arith)
