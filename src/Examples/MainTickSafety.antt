-- ===== src/Examples/MainTickSafety.antt =====
-- Runs of the theorems of Main.Tick.Safety on concrete inputs.
use rm.Examples.Data.{board}
use rm.Examples.Motors.{fixed_point, flying, sensor_readings, silent_flight}
use rm.Main.State.{Loop}
use rm.Main.Tick.{main_tick}
use rm.Main.Tick.Safety.{main_tick_calms, main_tick_lost_signal}
use rm.Motor.Mode.{as_u8, is_armed, is_running}
use rm.Platform.{ms_to_control_ticks}
use rm.Prelude.{arith, false, not, refl, some, ◌&&◌, ◌≡◌}

main_tick_calms_example :
    (after : Loop) × (main_tick board fixed_point sensor_readings flying ≡ some after)
    × ((is_armed after.shared.motor_mode && not (is_armed flying.shared.motor_mode)) ≡ false)
    × ((is_running after.shared.motor_mode && not (is_running flying.shared.motor_mode)) ≡ false)
main_tick_calms_example = main_tick_calms board fixed_point sensor_readings flying (omega arith)

main_tick_lost_signal_example :
    (after : Loop) × (main_tick board fixed_point sensor_readings silent_flight ≡ some after)
    × (is_armed after.shared.motor_mode ≡ false)
unfolding is_armed as_u8 ms_to_control_ticks
main_tick_lost_signal_example =
    main_tick_lost_signal board fixed_point sensor_readings silent_flight refl (omega arith)
      (omega arith)
