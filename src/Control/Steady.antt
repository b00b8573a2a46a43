-- ===== src/Control/Steady.antt =====
-- The fast path of the control tick in rm32/src/control/isr_logic.rs, which runs with the interrupts
-- unmasked while the motor is in steady drive. The hardware write `apply_pwm` is the compare and the
-- period that it gets, where it is called.
pub mod Equivalence
use rm.Prelude.{
  ℕ, ◌+◌, Bool, true, false, not, ◌&&◌, Option, none, some, ltb, leb, ◌==◌, if◌then◌else◌,
}
use rm.Prelude.Int.{pos_part}
use rm.Platform.{Platform}
use rm.Config.{Config, field}
use rm.Config.At
use rm.Motor.Commutation
use rm.Motor.Commutation.{Commutation}
use rm.Motor.Bemf
use rm.Motor.Bemf.{BemfState}
use rm.Motor.Duty
use rm.Motor.Duty.{DutyState}
use rm.Shared.Action.{IsrAction, no_action, reset_interval_timer, commutate_kick, all_off}
use rm.Shared.State.{
  SharedState, running, old_routine, stepper_sine, isr_action, increment_signal_timeout, as_u32,
  take_duty_kick_down,
}
use rm.Control.Motor.{sine_start, start_threshold, average_interval}
use rm.Control.Stages.{tick_counters}

unfoldable pub is_no_action : IsrAction → Bool
is_no_action no_action = true
is_no_action _ = false

unfoldable pub is_steady_running_tick : SharedState → Config → Bool
is_steady_running_tick s c =
    running s
    && not (old_routine s)
    && not (stepper_sine s)
    && not s.tone_active
    && is_no_action (isr_action s)
    && s.changeover_step == 0
    && leb (start_threshold c) s.adjusted_input

-- From the desync kick to the published duty.
unfoldable pub steady_duty : Platform → Bool → SharedState → DutyState → ℕ → SharedState × DutyState
steady_duty p voltage_based_ramp s duty setpoint =
    let (t, kick) = take_duty_kick_down (record s { duty_cycle_setpoint = setpoint }) in
    let kicked = if kick then Duty.kick_down duty else duty in
    let counted = Duty.increment_ramp_count (record kicked { cycle = setpoint }) in
    let average = average_interval p t in
    let u = record (increment_signal_timeout t) { gate_avg = pos_part average } in
    let ramped =
      Duty.ramp_limit p counted u.battery_voltage u.commutation_interval u.zero_crosses
        (as_u32 average) voltage_based_ramp in
    let limited =
      Duty.clamp_ceilings ramped u.stall_protection_adjust u.duty_maximum u.current_limit_adjust in
    (u, record limited { sine_outputs_on = false; active_brake_on = false })

-- The tick after the setpoint, with the arguments of `apply_pwm` where it is called.
unfoldable pub steady_apply :
    Platform
    → Bool
    → SharedState
    → DutyState
    → Option ℕ
    → Option (SharedState × DutyState × Option (ℕ × ℕ))
steady_apply p voltage_based_ramp s duty none = none
steady_apply p voltage_based_ramp s duty (some setpoint) =
    let (t, limited) = steady_duty p voltage_based_ramp s duty setpoint in
    let (done, final_duty) = Duty.finalize limited in
    let u = record t { duty_cycle = final_duty } in
    let compare = Duty.pwm_compare limited s.tim1_arr in
    let quiet = not u.tone_active && is_no_action (isr_action u) in
    some (u, done, if quiet then some (compare, s.tim1_arr) else none)

unfoldable pub steady_running_tick_unmasked :
    Platform
    → Config
    → Bool
    → SharedState
    → DutyState
    → Option (SharedState × DutyState × Option (ℕ × ℕ))
steady_running_tick_unmasked p c voltage_based_ramp shared duty =
    let s = record (tick_counters p c shared) { changeover_step = 0 } in
    steady_apply p voltage_based_ramp s duty (
      Duty.compute_setpoint duty s.adjusted_input s.zero_crosses (field c At.stall_protection)
        (sine_start c))

unfoldable pub steady_running_tick_sync_com :
    SharedState → Commutation → BemfState → ℕ → SharedState × Commutation × BemfState
steady_running_tick_sync_com s commutation bemf interval_count =
    let sector = Commutation.set_forward commutation s.forward in
    (
      record s { forward = sector.forward; interval_timer_count = interval_count },
      sector,
      Bemf.sync_config bemf s.filter_level s.auto_advance s.min_bemf_counts,
    )
