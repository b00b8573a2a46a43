-- ===== src/Control/Timer/Changeover.antt =====
-- What an expired commutation timer leaves: the mode, the comparator, and the counter.
use rm.Prelude.{Bool, true, false, not, ◌&&◌, List, ◌∷◌, ◌≡◌, ◌==◌, arith}
use rm.Platform.{Platform}
use rm.Bridge.{HalCall, PwmMode, mask_irq, enable_irq, disable_interrupt}
use rm.Motor.Mode
use rm.Motor.Mode.{MotorMode, disarmed, armed, stepper_sine, old_routine, running}
use rm.Shared.State.{set_old_routine, transition_shared, increment_zero_crosses, set_e_com_time}
use rm.Control.Motor.{MotorContext}
use rm.Control.Timer.{
  interrupt_mode, locked, polling_mode, desync_request, commutate, commutation_timer_expired,
}

-- Whether the last call unmasked the comparator interrupt.
unfoldable pub unmasked : List HalCall → Bool
unmasked (enable_irq ∷ rest) = true
unmasked _ = false

-- A timer that expires with the motor stopped makes no step: it turns itself off, masks the
-- comparator, and leaves every state as it was.
pub timer_of_stopped :
    (p : Platform) (mode : PwmMode) (bidirectional strict : Bool) (m : MotorContext)
    → Mode.is_running m.shared.motor_mode ≡ false
    → commutation_timer_expired p mode bidirectional strict m
      ≡ record m { calls = mask_irq ∷ disable_interrupt ∷ m.calls }
unfolding commutation_timer_expired
timer_of_stopped p mode bidirectional strict m h = rw h

unfoldable Follows : MotorMode → MotorContext → Type 0
Follows before m =
    (Mode.is_running m.shared.motor_mode ≡ true)
    × (unmasked m.calls ≡ not (Mode.is_old_routine m.shared.motor_mode))
    × ((Mode.is_old_routine before && unmasked m.calls && m.shared.gate_avg == 0) ≡ false)

commutation_timer_expired-Follows :
    (p : Platform) (mode : PwmMode) (bidirectional strict : Bool) (m : MotorContext)
    (before : MotorMode)
    → Mode.is_running before ≡ true
    → Follows before (
        commutation_timer_expired p mode bidirectional strict
          (record m { shared = record m.shared { motor_mode = before } }))
unfolding Follows commutation_timer_expired commutate desync_request interrupt_mode polling_mode
    locked set_old_routine transition_shared increment_zero_crosses set_e_com_time unmasked
    Mode.is_running Mode.is_old_routine Mode.is_running_mode Mode.transition
commutation_timer_expired-Follows p mode bidirectional strict m disarmed h = ground arith
commutation_timer_expired-Follows p mode bidirectional strict m armed h = ground arith
commutation_timer_expired-Follows p mode bidirectional strict m stepper_sine h = ground arith
commutation_timer_expired-Follows p mode bidirectional strict m old_routine h = ground arith
commutation_timer_expired-Follows p mode bidirectional strict m running h = ground arith

-- A timer that expires with the motor running leaves it running, and unmasks the comparator exactly
-- where the motor is left in interrupt-driven drive; a changeover from polling to interrupts always
-- has a gate average, without which the comparator interrupt would never be let through.
pub timer_of_running :
    (p : Platform) (mode : PwmMode) (bidirectional strict : Bool) (m : MotorContext)
    → Mode.is_running m.shared.motor_mode ≡ true
    → (Mode.is_running ((commutation_timer_expired p mode bidirectional strict m).shared.motor_mode)
        ≡ true)
      × (unmasked ((commutation_timer_expired p mode bidirectional strict m).calls)
          ≡ not (
              Mode.is_old_routine
                ((commutation_timer_expired p mode bidirectional strict m).shared.motor_mode)))
      × ((Mode.is_old_routine m.shared.motor_mode
            && unmasked ((commutation_timer_expired p mode bidirectional strict m).calls)
            && (commutation_timer_expired p mode bidirectional strict m).shared.gate_avg == 0)
          ≡ false)
unfolding Follows
timer_of_running p mode bidirectional strict m h =
    commutation_timer_expired-Follows p mode bidirectional strict m m.shared.motor_mode h
