-- ===== src/Control/Timer.antt =====
-- `commutation_timer_expired` of rm32/src/control/isr_logic.rs. The `ModeWriter` of the port is the
-- atomic or the single-writer one; both make the same change in one step of this context.
pub mod Changeover
use rm.Prelude.{
  ℕ, ◌+◌, ◌/◌, Bool, true, false, not, ◌&&◌, List, ◌∷◌, ltb, leb, ◌==◌, if◌then◌else◌, u16, u32,
}
use rm.Prelude.Int.{ℤ, pos_part}
use rm.Platform.{Platform, e_com_us_to_avg_ticks}
use rm.Constants.{old_routine_exit_interval, old_routine_reentry_margin, old_routine_exit_zc}
use rm.Bridge.{PwmMode, mask_irq, enable_irq, com_step, pulse_toggle, disable_interrupt}
use rm.Motor.Mode.{MotorEvent}
use rm.Motor.Commutation
use rm.Motor.Bemf
use rm.Shared.State.{
  SharedState, running, old_routine, transition_shared, set_old_routine, increment_zero_crosses,
  set_e_com_time, as_u32,
}
use rm.Control.Motor.{MotorContext, route_bemf}

unfoldable pub exit_interval : Platform → Bool → ℕ
exit_interval p bidirectional =
    let ticks = old_routine_exit_interval p in if bidirectional then ticks / 2 else ticks

-- Interrupt mode: the timing from the last zero crosses, and the fall back to polling.
unfoldable pub interrupt_mode : Platform → Bool → ℤ → ℕ → MotorContext → MotorContext
interrupt_mode p bidirectional e_com ci m =
    let to_old =
      ltb (u32 (exit_interval p bidirectional + old_routine_reentry_margin p))
        (as_u32 (e_com_us_to_avg_ticks p e_com)) in
    let s = if to_old then set_old_routine m.shared true else m.shared in
    let (bemf, new_ci) = Bemf.update_timing_from_timer m.bemf ci in
    record m {
      shared = increment_zero_crosses (record s { commutation_interval = new_ci });
      bemf = Bemf.reset_after_commutation bemf;
      calls = if to_old then m.calls else enable_irq ∷ m.calls;
    }

-- Polling mode: the changeover to interrupts, which needs a gate average.
unfoldable pub locked : Platform → ℤ → MotorContext → MotorContext
locked p e_com m =
    let average = pos_part (e_com_us_to_avg_ticks p e_com) in
    let first = if average == 0 then 1 else average in
    let gate = if m.shared.gate_avg == 0 then first else m.shared.gate_avg in
    record m {
      shared = transition_shared (record m.shared { gate_avg = gate }) MotorEvent.bemf_locked;
      calls = enable_irq ∷ m.calls;
    }

unfoldable pub changeover_met : Platform → Bool → Bool → ℕ → ℕ → Bool
changeover_met p bidirectional strict zero_crosses ci =
    if strict
    then leb old_routine_exit_zc zero_crosses && leb ci (exit_interval p bidirectional)
    else ltb ci (exit_interval p bidirectional)

unfoldable pub polling_mode : Platform → Bool → Bool → ℤ → ℕ → MotorContext → MotorContext
polling_mode p bidirectional strict e_com ci m =
    let n = record m {
      bemf = Bemf.reset_after_commutation m.bemf;
      shared = increment_zero_crosses m.shared;
    } in
    if changeover_met p bidirectional strict n.shared.zero_crosses ci then locked p e_com n else n

-- The desync check that the commutation asks for once per turn.
unfoldable pub desync_request : MotorContext → MotorContext
desync_request m =
    let asked = m.commutation.desync_check in
    record m {
      shared = record m.shared {
        desync_check_pending = if asked then true else m.shared.desync_check_pending;
      };
      commutation = record m.commutation { desync_check = false };
    }

-- The step of a running motor, with its electrical period.
unfoldable pub commutate : Platform → PwmMode → MotorContext → MotorContext × ℤ
commutate p mode m =
    let n = desync_request (record m { commutation = Commutation.advance m.commutation }) in
    let (timed, e_com) =
      Commutation.record_interval p n.commutation (u16 n.shared.commutation_interval) in
    (
      record n {
        commutation = timed;
        shared = set_e_com_time n.shared e_com;
        calls = route_bemf timed ∷ pulse_toggle timed.step ∷ com_step timed.step mode ∷ n.calls;
      },
      e_com,
    )

unfoldable pub commutation_timer_expired :
    Platform → PwmMode → Bool → Bool → MotorContext → MotorContext
commutation_timer_expired p mode bidirectional strict m =
    let n = record m { calls = disable_interrupt ∷ m.calls } in
    let (o, e_com) = commutate p mode n in
    let ci = m.shared.commutation_interval in
    if not (running m.shared)
    then record n { calls = mask_irq ∷ n.calls }
    else if old_routine o.shared
    then polling_mode p bidirectional strict e_com ci o
    else interrupt_mode p bidirectional e_com ci o
