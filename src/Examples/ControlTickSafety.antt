-- ===== src/Examples/ControlTickSafety.antt =====
-- Runs of the theorems of Control.Tick.Safety on concrete inputs.
use rm.Constants.{arming_timeout_ticks}
use rm.Control.Motor.{MotorContext}
use rm.Control.Tick.{ten_khz_tick}
use rm.Control.Tick.Safety.{drives, ten_khz_tick_disarmed}
use rm.Examples.Data.{blank, board}
use rm.Examples.Motors.{resting, tick_reads}
use rm.Motor.Mode.{armed, disarmed}
use rm.Prelude.{false, refl, some, true, u32, ◌+◌, ◌<◌, ◌≡◌, ◌⊎◌}

ten_khz_tick_disarmed_example :
    (n : MotorContext) × (ten_khz_tick board blank false tick_reads resting ≡ some n)
    × (((n.shared.motor_mode ≡ disarmed) × (drives n.calls ≡ drives resting.calls))
        ⊎ ((n.shared.motor_mode ≡ armed)
            × (resting.shared.input_set ≡ true)
            × (resting.shared.adjusted_input ≡ 0)
            × (arming_timeout_ticks board < u32 (resting.armed_timeout_count + 1))))
ten_khz_tick_disarmed_example = ten_khz_tick_disarmed board blank false tick_reads resting refl refl
