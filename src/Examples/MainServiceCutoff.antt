-- ===== src/Examples/MainServiceCutoff.antt =====
-- Runs of the theorems of Main.Service.Cutoff on concrete inputs.
use rm.Examples.Motors.{sagging, wrapped_sag}
use rm.Main.Service.{is_below_cutoff, lvc_limit, voltage_stage}
use rm.Main.Service.Cutoff.{services, voltage_stage_cutoff, voltage_stage_wraps}
use rm.Measure.Units.{below_cell_threshold}
use rm.Motor.Mode.{disarmed, is_stepper_sine}
use rm.Prelude.{arith, false, refl, suc, true, ◌≡◌}
use rm.Shared.Action.{IsrAction, request_isr_action}

voltage_stage_cutoff_example :
    ((services 9999 sagging).shared ≡ sagging.shared)
    × ((services 9999 sagging).main.protection.low_voltage_cutoff ≡ false)
    × ((services (suc (lvc_limit sagging.shared)) sagging).shared.motor_mode ≡ disarmed)
    × ((services (suc (lvc_limit sagging.shared)) sagging).shared.isr_action_cell
        ≡ request_isr_action sagging.shared.isr_action_cell IsrAction.all_off)
    × ((services (suc (lvc_limit sagging.shared)) sagging).main.protection.low_voltage_cutoff
        ≡ true)
unfolding is_below_cutoff below_cell_threshold lvc_limit is_stepper_sine
voltage_stage_cutoff_example =
    voltage_stage_cutoff sagging 9999
      (record { enabled = refl; below = refl; fresh = refl; unlatched = refl }) (omega arith)

voltage_stage_wraps_example :
    ((voltage_stage wrapped_sag).shared ≡ wrapped_sag.shared)
    × ((voltage_stage wrapped_sag).main.protection.low_voltage_count ≡ 0)
    × ((voltage_stage wrapped_sag).main.protection.low_voltage_cutoff ≡ true)
unfolding is_below_cutoff below_cell_threshold
voltage_stage_wraps_example = voltage_stage_wraps wrapped_sag refl refl refl refl
