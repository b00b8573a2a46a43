-- ===== src/Examples/ControlTimerChangeover.antt =====
-- Runs of the theorems of Control.Timer.Changeover on concrete inputs.
use rm.Bridge.{PwmMode}
use rm.Control.Timer.{commutation_timer_expired}
use rm.Control.Timer.Changeover.{timer_of_running, unmasked}
use rm.Examples.Data.{board}
use rm.Examples.Motors.{spinning}
use rm.Motor.Mode.{is_old_routine, is_running, is_running_mode}
use rm.Prelude.{false, not, refl, true, ◌&&◌, ◌==◌, ◌≡◌}

timer_of_running_example :
    (is_running (
        (commutation_timer_expired board PwmMode.complementary false true
          spinning).shared.motor_mode)
      ≡ true)
    × (unmasked ((commutation_timer_expired board PwmMode.complementary false true spinning).calls)
        ≡ not (
            is_old_routine (
              (commutation_timer_expired board PwmMode.complementary false true
                spinning).shared.motor_mode)))
    × ((is_old_routine spinning.shared.motor_mode
          && unmasked
              ((commutation_timer_expired board PwmMode.complementary false true spinning).calls)
          && (commutation_timer_expired board PwmMode.complementary false true
              spinning).shared.gate_avg
            == 0)
        ≡ false)
unfolding is_running is_running_mode is_old_routine
timer_of_running_example = timer_of_running board PwmMode.complementary false true spinning refl
