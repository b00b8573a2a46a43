-- ===== src/Examples/ControlTickQuiet.antt =====
-- Runs of the theorems of Control.Tick.Quiet on concrete inputs.
use rm.Control.Motor.{MotorContext}
use rm.Control.Tick.Quiet.{drive_count, ticks, ticks_keep_quiet}
use rm.Examples.Data.{blank, board}
use rm.Examples.Motors.{disturbances, unplugged}
use rm.Motor.Mode.{disarmed}
use rm.Prelude.{false, refl, some, ◌≡◌}

ticks_keep_quiet_example :
    (n : MotorContext) × (ticks board blank false disturbances (some unplugged) ≡ some n)
    × (n.shared.motor_mode ≡ disarmed)
    × (n.shared.input_set ≡ false)
    × (drive_count n.calls ≡ drive_count unplugged.calls)
ticks_keep_quiet_example = ticks_keep_quiet board blank false disturbances unplugged refl refl refl
