-- ===== src/Control/Tick.antt =====
-- `ten_khz_tick` of rm32/src/control/isr_logic.rs: the stages in the order of the source. `none` is
-- the panic of the duty computation where its startup limits are reversed.
pub mod Safety
pub mod Release
pub mod Quiet
use rm.Prelude.{ℕ, Bool, Option, none, some}
use rm.Platform.{Platform}
use rm.Config.{Config}
use rm.Shared.Action.{IsrAction}
use rm.Shared.State.{isr_action}
use rm.Control.Motor.{MotorContext, Readings}
use rm.Control.Stages.{
  tick_counters, mask_idle, all_off_arm, take_action, handoff_stage, sine_entry_stage,
  throttle_stage,
}
use rm.Control.Outputs.{duty_stage, arming_stage, polling_stage, ramp_stage, output_stage}

-- The tick after the throttle stage.
unfoldable pub tick_drive :
    Platform → Config → Bool → Readings → ℕ → Bool → MotorContext → MotorContext
tick_drive p c voltage_based_ramp r input handoff m =
    output_stage c input r (
      ramp_stage p voltage_based_ramp (polling_stage p c r handoff (arming_stage p (duty_stage m))))

unfoldable pub tick_resume :
    Platform → Config → Bool → Readings → ℕ → Bool → Option MotorContext → Option MotorContext
tick_resume p c voltage_based_ramp r input handoff none = none
tick_resume p c voltage_based_ramp r input handoff (some m) =
    some (tick_drive p c voltage_based_ramp r input handoff m)

-- The tick after the requested action.
unfoldable pub tick_body : Platform → Config → Bool → Readings → MotorContext → Option MotorContext
tick_body p c voltage_based_ramp r m =
    let input = m.shared.adjusted_input in
    let (n, handoff) = handoff_stage c m in
    tick_resume p c voltage_based_ramp r input handoff
      (throttle_stage p c input (sine_entry_stage c input n))

unfoldable pub act_and_go :
    Platform → Config → Bool → Readings → IsrAction → MotorContext → Option MotorContext
act_and_go p c voltage_based_ramp r IsrAction.all_off m = some (all_off_arm m)
act_and_go p c voltage_based_ramp r a m =
    tick_body p c voltage_based_ramp r (take_action m a r.count_at_entry)

unfoldable pub ten_khz_tick :
    Platform → Config → Bool → Readings → MotorContext → Option MotorContext
ten_khz_tick p c voltage_based_ramp r m =
    let s = tick_counters p c m.shared in
    act_and_go p c voltage_based_ramp r (isr_action s) (mask_idle (record m { shared = s }))
