-- ===== src/Examples/ControlSteadyEquivalence.antt =====
-- Runs of the theorems of Control.Steady.Equivalence on concrete inputs.
use rm.Control.Steady.{is_no_action, is_steady_running_tick}
use rm.Control.Steady.Equivalence.{steady_tick, steady_tick_agrees}
use rm.Control.Tick.{ten_khz_tick}
use rm.Examples.Data.{blank, board}
use rm.Examples.Motors.{spinning, tick_reads}
use rm.Motor.Mode.{is_old_routine, is_running, is_running_mode, is_stepper_sine}
use rm.Prelude.{false, refl, ◌≡◌}
use rm.Shared.Action.{action_from_u8}

steady_tick_agrees_example :
    ten_khz_tick board blank false tick_reads spinning
    ≡ steady_tick board blank false tick_reads spinning
unfolding is_steady_running_tick is_no_action is_running is_running_mode is_old_routine
    is_stepper_sine action_from_u8
steady_tick_agrees_example = steady_tick_agrees board blank false tick_reads spinning refl
