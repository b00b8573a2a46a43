-- ===== src/Control/Steady/Equivalence.antt =====
-- The fast path does what the full control tick does.
use rm.Prelude.{
  ℕ, Bool, true, false, not, ◌&&◌, Option, none, some, ◌∷◌, ◌≡◌, refl, sym, arith, ltb, leb, ◌==◌,
}
use mathlib.Core.Path.{subst}
use rm.Platform.{Platform}
use rm.Config.{Config, field}
use rm.Config.At
use rm.Motor.Mode.{MotorMode, disarmed, armed, stepper_sine, old_routine, running}
use rm.Motor.Mode
use rm.Bridge.{set_duty_all, set_period}
use rm.Shared.State.{
  SharedState, increment_control_ticks, one_khz_counter_inc, telem_counter_check_and_inc,
  take_duty_kick_down, increment_signal_timeout,
}
use rm.Control.Motor.{MotorContext, Readings}
use rm.Control.Stages.{
  tick_counters, mask_idle, handoff_stage, is_handoff, take_action, sine_entry_stage,
  throttle_stage, throttle_apply,
}
use rm.Control.Outputs.{
  duty_stage, arming_stage, polling_stage, ramp_stage, output_stage, output_flags, tone_owns_bridge,
  drive_arm,
}
use rm.Control.Tick.{tick_drive, tick_body, tick_resume, act_and_go, ten_khz_tick}
use rm.Control.Steady.{
  is_steady_running_tick, steady_running_tick_unmasked, steady_running_tick_sync_com, steady_duty,
  is_no_action, steady_apply,
}
use rm.Control.Motor
use rm.Motor.Duty
use rm.Motor.Duty.{DutyState}
use rm.Motor.Commutation
use rm.Shared.Action.{
  IsrAction, action_from_u8, no_action, reset_interval_timer, commutate_kick, all_off,
}

-- The state that a motor is left in by the results of the two halves of the fast path.
unfoldable pub steady_join :
    Readings
    → MotorContext
    → Option (SharedState × DutyState × Option (ℕ × ℕ))
    → Option MotorContext
steady_join r m none = none
steady_join r m (some (u, duty, pwm)) =
    let (t, sector, bemf) = steady_running_tick_sync_com u m.commutation m.bemf r.count_at_exit in
    some (record m {
      shared = t;
      commutation = sector;
      bemf = bemf;
      duty = duty;
      calls = elim pwm [
        | none ↦ m.calls
        | some write ↦
            (let (compare, arr) = write in set_period arr ∷ set_duty_all compare ∷ m.calls)
      ];
    })

-- The two halves of the fast path, one after the other.
unfoldable pub steady_tick :
    Platform → Config → Bool → Readings → MotorContext → Option MotorContext
unfolding steady_join
steady_tick p c voltage_based_ramp r m =
    steady_join r m (steady_running_tick_unmasked p c voltage_based_ramp m.shared m.duty)

-- A shared state with the cells that a steady tick tests.
abbrev shape : SharedState → MotorMode → Bool → ℕ → SharedState
shape s mode tone step = record s { motor_mode = mode; tone_active = tone; changeover_step = step }

and_true : (b : Bool) → (b && true) ≡ b
and_true true = refl
and_true false = refl

drive_agrees :
    (p : Platform) (c : Config) (voltage_based_ramp : Bool) (r : Readings) (u : SharedState)
    (m : MotorContext) (setpoint : Option ℕ)
    → action_from_u8 u.isr_action_cell ≡ no_action
    → steady_join r m (steady_apply p voltage_based_ramp (shape u running false 0) m.duty setpoint)
      ≡ tick_resume p c voltage_based_ramp r u.adjusted_input false (
          throttle_apply p c
            (record m {
              shared = shape u running false 0;
              commutation = Commutation.set_forward m.commutation u.forward;
            })
            setpoint)
unfolding steady_join steady_apply steady_duty steady_running_tick_sync_com tick_resume tick_drive
    duty_stage throttle_apply arming_stage polling_stage ramp_stage output_stage output_flags
    tone_owns_bridge drive_arm is_no_action take_duty_kick_down increment_signal_timeout
    Mode.is_armed Mode.is_running Mode.is_old_routine Mode.is_stepper_sine Mode.as_u8
    Mode.is_running_mode Commutation.set_forward Duty.increment_ramp_count Duty.finalize
drive_agrees p c voltage_based_ramp r u m none quiet = refl
drive_agrees p c voltage_based_ramp r u m (some setpoint) quiet =
    rw (quiet, and_true u.duty_kick_down)

above_threshold :
    (c : Config) (input : ℕ)
    → leb (Motor.start_threshold c) input ≡ true
    → (Motor.sine_start c && ltb input (Motor.start_threshold c)) ≡ false
above_threshold c input h = ground arith

-- What the fast path's test says of the cells that it reads.
unfoldable IsSteady : SharedState → Config → Type 0
IsSteady s c =
    (s.motor_mode ≡ running)
    × (s.tone_active ≡ false)
    × (action_from_u8 s.isr_action_cell ≡ no_action)
    × (s.changeover_step ≡ 0)
    × (leb (Motor.start_threshold c) s.adjusted_input ≡ true)

tested :
    (mode : MotorMode) (tone : Bool) (a : IsrAction) (step : ℕ) (over : Bool)
    → (Mode.is_running mode
        && not (Mode.is_old_routine mode)
        && not (Mode.is_stepper_sine mode)
        && not tone
        && is_no_action a
        && step == 0
        && over)
      ≡ true
    → (mode ≡ running) × (tone ≡ false) × (a ≡ no_action) × (step ≡ 0) × (over ≡ true)
unfolding Mode.is_running Mode.is_running_mode Mode.is_old_routine Mode.is_stepper_sine is_no_action
tested running false no_action step over h = (refl, refl, refl, ground arith, ground arith)
tested running false reset_interval_timer step over h = ground arith
tested running false commutate_kick step over h = ground arith
tested running false all_off step over h = ground arith
tested running true a step over h = ground arith
tested disarmed tone a step over h = ground arith
tested armed tone a step over h = ground arith
tested stepper_sine tone a step over h = ground arith
tested old_routine tone a step over h = ground arith

is_steady_running_tick-IsSteady :
    (s : SharedState) (c : Config) → is_steady_running_tick s c ≡ true → IsSteady s c
unfolding is_steady_running_tick IsSteady
is_steady_running_tick-IsSteady s c h =
    tested s.motor_mode s.tone_active (action_from_u8 s.isr_action_cell) s.changeover_step
      (leb (Motor.start_threshold c) s.adjusted_input) h

-- The counters at the head of a tick leave the tested cells alone.
tick_counters-IsSteady :
    (p : Platform) (s : SharedState) (c : Config) → IsSteady s c → IsSteady (tick_counters p c s) c
unfolding tick_counters increment_control_ticks one_khz_counter_inc telem_counter_check_and_inc
    IsSteady
tick_counters-IsSteady p s c h = h

shape_eq : (u : SharedState) (c : Config) → IsSteady u c → shape u running false 0 ≡ u
unfolding IsSteady
shape_eq u c (mode_of, silent, request, handoff, driven) = λ i. record u {
  motor_mode = sym mode_of i;
  tone_active = sym silent i;
  changeover_step = sym handoff i;
}

-- The full tick after its counters, in the shape of a steady tick.
body_agrees :
    (p : Platform) (c : Config) (voltage_based_ramp : Bool) (r : Readings) (u : SharedState)
    (m : MotorContext)
    → action_from_u8 u.isr_action_cell ≡ no_action
    → leb (Motor.start_threshold c) u.adjusted_input ≡ true
    → act_and_go p c voltage_based_ramp r
        (action_from_u8 u.isr_action_cell)
        (mask_idle (record m { shared = shape u running false 0 }))
      ≡ steady_join r m (
          steady_apply p voltage_based_ramp (shape u running false 0) m.duty (
            Duty.compute_setpoint m.duty u.adjusted_input u.zero_crosses
              (field c At.stall_protection)
              (Motor.sine_start c)))
unfolding act_and_go mask_idle tick_body handoff_stage is_handoff take_action sine_entry_stage
    throttle_stage Mode.is_armed Mode.is_running Mode.is_old_routine Mode.is_stepper_sine Mode.as_u8
    Mode.is_running_mode Commutation.set_forward
body_agrees p c voltage_based_ramp r u m quiet over =
    rw (quiet, above_threshold c u.adjusted_input over, over)
      (sym (
        drive_agrees p c voltage_based_ramp r u m
          (Duty.compute_setpoint m.duty u.adjusted_input u.zero_crosses
            (field c At.stall_protection) (Motor.sine_start c))
          quiet))

-- Where the test of the fast path holds, its two halves, one after the other, leave the same shared
-- state, commutation, back-EMF and duty state, and make the same PWM writes in the same order, as the
-- full control tick; and they panic where it does.
pub steady_tick_agrees :
    (p : Platform) (c : Config) (voltage_based_ramp : Bool) (r : Readings) (m : MotorContext)
    → is_steady_running_tick m.shared c ≡ true
    → ten_khz_tick p c voltage_based_ramp r m ≡ steady_tick p c voltage_based_ramp r m
unfolding ten_khz_tick steady_tick steady_running_tick_unmasked IsSteady
steady_tick_agrees p c voltage_based_ramp r m h =
    let u = tick_counters p c m.shared in
    let (mode_of, silent, request, handoff, driven) =
      tick_counters-IsSteady p m.shared c (is_steady_running_tick-IsSteady m.shared c h) in
    subst
      (λ s.
        act_and_go p c voltage_based_ramp r (action_from_u8 s.isr_action_cell)
          (mask_idle (record m { shared = s }))
        ≡ steady_join r m (
            steady_apply p voltage_based_ramp (record s { changeover_step = 0 }) m.duty
              (Duty.compute_setpoint m.duty s.adjusted_input s.zero_crosses
                (field c At.stall_protection) (Motor.sine_start c))))
      (shape_eq u c (mode_of, silent, request, handoff, driven))
      (body_agrees p c voltage_based_ramp r u m request driven)
