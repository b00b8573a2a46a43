-- ===== src/Control/Tick/Safety.antt =====
-- What a control tick may do while a kill is requested and while the motor is disarmed.
use rm.Prelude.{
  ℕ, ◌+◌, ◌<◌, Bool, true, false, not, ◌||◌, some, List, [], ◌∷◌, ◌≡◌, refl, sym, ◌⊎◌, inl, ◌==◌,
  u32, arith,
}
use mathlib.Core.Path.{subst}
use rm.Platform.{Platform}
use rm.Constants.{arming_timeout_ticks}
use rm.Config.{Config}
use rm.Bridge.{
  HalCall, mask_irq, bridge_off, latch, proportional_brake, com_step, pulse_toggle, set_duty_all,
  set_and_enable, disable_interrupt,
}
use rm.Motor.Mode
use rm.Motor.Mode.{MotorMode, disarmed, armed}
use rm.Motor.Duty
use rm.Motor.Commutation
use rm.Shared.Action.{
  IsrAction, no_action, reset_interval_timer, commutate_kick, all_off, action_from_u8, action_code,
  clear_isr_action,
}
use rm.Shared.State.{
  SharedState, take_duty_kick_down, clear_action, isr_action, increment_control_ticks,
  one_khz_counter_inc, telem_counter_check_and_inc, transition_shared, increment_signal_timeout,
}
use rm.Control.Motor.{MotorContext, Readings}
use rm.Control.Stages.{
  tick_counters, mask_idle, all_off_arm, reset_timer_arm, commutate_kick_arm, take_action,
  is_handoff, handoff_stage, sine_entry_stage, throttle_stage,
}
use rm.Control.Outputs.{
  duty_stage, arming_stage, polling_stage, ramp_stage, output_flags, tone_owns_bridge, bridge_busy,
  drive_arm, brake_arm, output_stage,
}
use rm.Control.Tick.{tick_drive, tick_resume, tick_body, act_and_go, ten_khz_tick}

-- The calls that put current into the motor, or set the commutation timer, which leads to them.
unfoldable pub is_drive : HalCall → Bool
is_drive (com_step step mode) = true
is_drive (pulse_toggle step) = true
is_drive (set_and_enable delay) = true
is_drive proportional_brake = true
is_drive (set_duty_all compare) = not (compare == 0)
is_drive _ = false

unfoldable pub drives : List HalCall → Bool
unfolding is_drive
drives [] = false
drives (c ∷ cs) = is_drive c || drives cs

unfoldable pub Killed : MotorContext → MotorContext → Type 0
Killed m n =
    (isr_action n.shared ≡ no_action)
    × (n.shared.motor_mode ≡ m.shared.motor_mode)
    × (n.shared.duty_kick_down ≡ false)
    × (n.shared.changeover_step ≡ 0)
    × (n.duty.active_brake_on ≡ false)
    × (n.commutation ≡ m.commutation)
    × (n.bemf ≡ m.bemf)

clear_all_off :
    (cell : ℕ)
    → action_from_u8 cell ≡ all_off
    → action_from_u8 (clear_isr_action cell all_off) ≡ no_action
unfolding clear_isr_action action_from_u8 action_code
clear_all_off cell h = ground arith

-- A tick with a kill requested always ends, ends with the bridge off, no compare value, and the
-- comparator and the commutation timer stopped, and takes the request, the desync kick and a queued
-- handoff with it; it changes neither the mode nor the commutation and the back-EMF state.
pub ten_khz_tick_kill :
    (p : Platform) (c : Config) (voltage_based_ramp : Bool) (r : Readings) (m : MotorContext)
    → action_from_u8 m.shared.isr_action_cell ≡ all_off
    → (n : MotorContext) × (ten_khz_tick p c voltage_based_ramp r m ≡ some n)
      × ((earlier : List HalCall) × (n.calls
            ≡ mask_irq ∷ latch ∷ set_duty_all 0 ∷ bridge_off ∷ disable_interrupt ∷ earlier))
      × Killed m n
unfolding ten_khz_tick act_and_go all_off_arm take_duty_kick_down Killed clear_action mask_idle
    tick_counters increment_control_ticks one_khz_counter_inc telem_counter_check_and_inc
ten_khz_tick_kill p c voltage_based_ramp r m h = rw h (
  _,
  refl,
  (_, refl),
  (clear_all_off m.shared.isr_action_cell h, refl, refl, refl, refl, refl, refl),
)

-- A disarmed tick leaves the motor disarmed and undriven, or arms it after the quiet time.
unfoldable pub Undriven : Platform → MotorContext → MotorContext → Type 0
Undriven p m n =
    ((n.shared.motor_mode ≡ disarmed) × (drives n.calls ≡ drives m.calls))
    ⊎ ((n.shared.motor_mode ≡ armed)
        × (m.shared.input_set ≡ true)
        × (m.shared.adjusted_input ≡ 0)
        × (arming_timeout_ticks p < u32 (m.armed_timeout_count + 1)))

abbrev disarmed_of : SharedState → SharedState
disarmed_of s = record s { motor_mode = disarmed; prop_brake_active = false }

drive_disarmed :
    (p : Platform) (c : Config) (voltage_based_ramp : Bool) (r : Readings) (input : ℕ)
    (handoff : Bool) (m : MotorContext)
    → Undriven p m (
        tick_drive p c voltage_based_ramp r input handoff
          (record m { shared = disarmed_of m.shared }))
unfolding tick_drive duty_stage arming_stage polling_stage ramp_stage output_stage output_flags
    tone_owns_bridge bridge_busy drive_arm brake_arm take_duty_kick_down increment_signal_timeout
    transition_shared Mode.is_armed Mode.is_running Mode.is_old_routine Mode.is_stepper_sine
    Mode.as_u8 Mode.is_running_mode Mode.transition Undriven drives is_drive Duty.finalize
drive_disarmed p c voltage_based_ramp r input handoff m = ground arith

no_handoff : (s : SharedState) → is_handoff (disarmed_of s) ≡ false
unfolding is_handoff Mode.is_stepper_sine
no_handoff s = ground arith

body_disarmed :
    (p : Platform) (c : Config) (voltage_based_ramp : Bool) (r : Readings) (m : MotorContext)
    → (n : MotorContext) × (tick_body p c voltage_based_ramp r
          (record m { shared = disarmed_of m.shared })
        ≡ some n)
      × Undriven p m n
unfolding tick_body tick_resume handoff_stage sine_entry_stage throttle_stage Mode.is_armed
    Mode.as_u8 Mode.is_stepper_sine Mode.is_running Mode.is_old_routine Mode.is_running_mode
    Undriven Commutation.set_forward
body_disarmed p c voltage_based_ramp r m =
    let t = record m {
      shared = record m.shared { changeover_step = 0 };
      commutation = Commutation.set_forward m.commutation m.shared.forward;
    } in
    rw (no_handoff m.shared)
      (_, refl, drive_disarmed p c voltage_based_ramp r m.shared.adjusted_input false t)

act_disarmed :
    (p : Platform) (c : Config) (voltage_based_ramp : Bool) (r : Readings) (a : IsrAction)
    (m : MotorContext)
    → (n : MotorContext) × (act_and_go p c voltage_based_ramp r a
          (record m { shared = disarmed_of m.shared })
        ≡ some n)
      × Undriven p m n
unfolding act_and_go take_action all_off_arm reset_timer_arm commutate_kick_arm clear_action
    take_duty_kick_down Mode.is_running Mode.is_old_routine Mode.is_running_mode Undriven drives
    is_drive
act_disarmed p c voltage_based_ramp r no_action m = body_disarmed p c voltage_based_ramp r m
act_disarmed p c voltage_based_ramp r reset_interval_timer m =
    body_disarmed p c voltage_based_ramp r (reset_timer_arm m)
act_disarmed p c voltage_based_ramp r commutate_kick m =
    body_disarmed p c voltage_based_ramp r
      (commutate_kick_arm (record m { shared = disarmed_of m.shared }) r.count_at_entry)
act_disarmed p c voltage_based_ramp r all_off m = (_, refl, inl (refl, refl))

-- A control tick of a disarmed motor never panics, and it either leaves the motor disarmed and makes
-- no call that drives the bridge or sets the commutation timer, whatever action, handoff, tone or
-- throttle is pending, or it arms the motor, which takes a set input, zero throttle, and a quiet time
-- longer than the arming timeout. The proportional brake is taken as not engaged.
pub ten_khz_tick_disarmed :
    (p : Platform) (c : Config) (voltage_based_ramp : Bool) (r : Readings) (m : MotorContext)
    → m.shared.motor_mode ≡ disarmed
    → m.shared.prop_brake_active ≡ false
    → (n : MotorContext) × (ten_khz_tick p c voltage_based_ramp r m ≡ some n)
      × (((n.shared.motor_mode ≡ disarmed) × (drives n.calls ≡ drives m.calls))
          ⊎ ((n.shared.motor_mode ≡ armed)
              × (m.shared.input_set ≡ true)
              × (m.shared.adjusted_input ≡ 0)
              × (arming_timeout_ticks p < u32 (m.armed_timeout_count + 1))))
unfolding ten_khz_tick mask_idle tick_counters increment_control_ticks one_khz_counter_inc
    telem_counter_check_and_inc Undriven drives is_drive Mode.is_running Mode.is_old_routine
    Mode.is_running_mode
ten_khz_tick_disarmed p c voltage_based_ramp r m mode brake =
    let s = tick_counters p c m.shared in
    subst
      (λ t.
        (n : MotorContext) × (act_and_go p c voltage_based_ramp r (isr_action s)
            (mask_idle (record m { shared = t }))
          ≡ some n)
        × Undriven p m n)
      (λ i. record s { motor_mode = sym mode i; prop_brake_active = sym brake i })
      (act_disarmed p c voltage_based_ramp r (isr_action s)
        (mask_idle (record m { shared = disarmed_of s })))
