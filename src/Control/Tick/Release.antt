-- ===== src/Control/Tick/Release.antt =====
-- What a control tick does to a motor whose throttle is released.
use rm.Prelude.{
  ℕ, ◌<◌, ◌≡◌, refl, sym, ap, ◌∙◌, Bool, true, false, ◌&&◌, some, ltb, leb, if◌then◌else◌, arith,
}
use mathlib.Core.Path.{subst}
use rm.Platform.{Platform}
use rm.Config.{Config}
use rm.Prelude.{◌∷◌}
use rm.Bridge.{mask_irq, bridge_off, latch, set_duty_all, disable_interrupt}
use rm.Motor.Mode.{
  MotorMode, armed, stepper_sine, is_armed, is_running, is_old_routine, is_stepper_sine,
  is_running_mode, as_u8, transition,
}
use mathlib.Core.Bool.{true≢false}
use rm.Motor.Bemf
use rm.Motor.Duty
use rm.Motor.Commutation
use rm.Shared.Action.{no_action, action_from_u8}
use rm.Shared.State.{
  SharedState, transition_shared, take_duty_kick_down, increment_signal_timeout,
  increment_control_ticks, one_khz_counter_inc, telem_counter_check_and_inc,
}
use rm.Control.Motor.{MotorContext, Readings, sine_start, start_threshold}
use rm.Control.Stages.{
  tick_counters, mask_idle, is_handoff, handoff_stage, sine_entry_stage, throttle_idle,
  throttle_stage, take_action,
}
use rm.Control.Outputs.{
  duty_stage, arming_stage, polling_stage, ramp_stage, output_flags, tone_owns_bridge, bridge_busy,
  drive_arm, brake_arm, output_stage,
}
use rm.Control.Tick.{tick_drive, tick_resume, tick_body, act_and_go, ten_khz_tick}

abbrev armed_of : SharedState → SharedState
armed_of s = record s { motor_mode = armed }

abbrev Parked : MotorMode → MotorContext → Type 0
Parked mode n =
    (n.shared.motor_mode ≡ mode) × (n.shared.duty_cycle_setpoint ≡ 0) × (n.shared.zero_crosses ≡ 0)

tick_drive-Parked :
    (p : Platform) (c : Config) (voltage_based_ramp : Bool) (r : Readings) (input : ℕ)
    (handoff : Bool) (m : MotorContext)
    → Parked armed (
        tick_drive p c voltage_based_ramp r input handoff (record m {
          shared = record m.shared {
            motor_mode = armed;
            duty_cycle_setpoint = 0;
            zero_crosses = 0;
          };
        }))
unfolding tick_drive duty_stage arming_stage polling_stage ramp_stage output_stage output_flags
    tone_owns_bridge bridge_busy drive_arm brake_arm take_duty_kick_down increment_signal_timeout
    is_armed is_running is_old_routine is_stepper_sine as_u8 is_running_mode Duty.finalize
tick_drive-Parked p c voltage_based_ramp r input handoff m = ground arith

drive_sine :
    (p : Platform) (c : Config) (voltage_based_ramp : Bool) (r : Readings) (input : ℕ)
    (handoff : Bool) (m : MotorContext)
    → Parked stepper_sine (
        tick_drive p c voltage_based_ramp r input handoff (record m {
          shared = record m.shared {
            motor_mode = stepper_sine;
            duty_cycle_setpoint = 0;
            zero_crosses = 0;
          };
        }))
unfolding tick_drive duty_stage arming_stage polling_stage ramp_stage output_stage output_flags
    tone_owns_bridge bridge_busy drive_arm brake_arm take_duty_kick_down increment_signal_timeout
    is_armed is_running is_old_routine is_stepper_sine as_u8 is_running_mode Duty.finalize
drive_sine p c voltage_based_ramp r input handoff m = ground arith

no_handoff : (s : SharedState) → is_handoff (armed_of s) ≡ false
unfolding is_handoff is_stepper_sine
no_handoff s = ground arith

below : (c : Config) (input : ℕ) → input < start_threshold c → leb (start_threshold c) input ≡ false
below c input h = ground arith

under : (c : Config) (input : ℕ) → input < start_threshold c → ltb input (start_threshold c) ≡ true
under c input h = ground arith

if_false {ℓ} : {A : Type ℓ} (b : Bool) (x y : A) → b ≡ false → (if b then x else y) ≡ y
if_false true x y h = absurd (true≢false h)
if_false false x y h = refl

and_false : (b d : Bool) → b ≡ false → (b && d) ≡ false
and_false true d h = absurd (true≢false h)
and_false false d h = refl

no_entry :
    (c : Config) (input : ℕ) (m : MotorContext)
    → sine_start c ≡ false
    → sine_entry_stage c input (record m { shared = armed_of m.shared })
      ≡ record m { shared = armed_of m.shared }
unfolding sine_entry_stage is_armed as_u8
no_entry c input m e =
    if_false (sine_start c && ltb input (start_threshold c)) _ _ (and_false (sine_start c) _ e)

idle_stage :
    (p : Platform) (c : Config) (input : ℕ) (m : MotorContext)
    → leb (start_threshold c) input ≡ false
    → throttle_stage p c input (record m { shared = armed_of m.shared })
      ≡ some (throttle_idle (record m { shared = armed_of m.shared }))
unfolding throttle_stage is_armed as_u8 is_stepper_sine
idle_stage p c input m high = if_false (leb (start_threshold c) input) _ _ high

body_idle :
    (p : Platform) (c : Config) (voltage_based_ramp : Bool) (r : Readings) (m : MotorContext)
    → sine_start c ≡ false
    → leb (start_threshold c) m.shared.adjusted_input ≡ false
    → (n : MotorContext) × (tick_body p c voltage_based_ramp r
          (record m { shared = armed_of m.shared })
        ≡ some n)
      × Parked armed n
unfolding tick_body tick_resume handoff_stage throttle_idle is_running is_old_routine
    is_running_mode Commutation.set_forward
body_idle p c voltage_based_ramp r m e high =
    let input = m.shared.adjusted_input in
    let t = record m {
      shared = record m.shared { changeover_step = 0 };
      commutation = Commutation.set_forward m.commutation m.shared.forward;
    } in
    let idle = record t { bemf = Bemf.reset_for_step m.bemf } in
    rw (no_handoff m.shared) (
      _,
      ap (λ x. tick_resume p c voltage_based_ramp r input false (throttle_stage p c input x))
            (no_entry c input t e)
          ∙ ap (tick_resume p c voltage_based_ramp r input false) (idle_stage p c input t high),
      tick_drive-Parked p c voltage_based_ramp r input false idle,
    )

if_true {ℓ} : {A : Type ℓ} (b : Bool) (x y : A) → b ≡ true → (if b then x else y) ≡ x
if_true true x y h = refl
if_true false x y h = absurd (true≢false (sym h))

and_both : (b d : Bool) → b ≡ true → d ≡ true → (b && d) ≡ true
and_both b d h k = ground arith

-- The state in which a released throttle leaves six-step drive for the sine drive.
entered : MotorContext → MotorContext
entered m = record m {
  shared = record m.shared { motor_mode = stepper_sine; duty_cycle_setpoint = 0; zero_crosses = 0 };
  bemf = Bemf.reset_for_step m.bemf;
  duty = record m.duty { sine_outputs_on = false };
  calls = mask_irq ∷ disable_interrupt ∷ latch ∷ set_duty_all 0 ∷ bridge_off ∷ m.calls;
}

entry :
    (c : Config) (input : ℕ) (m : MotorContext)
    → sine_start c ≡ true
    → ltb input (start_threshold c) ≡ true
    → sine_entry_stage c input (record m { shared = armed_of m.shared }) ≡ entered m
unfolding sine_entry_stage entered is_armed as_u8 is_stepper_sine transition_shared transition
entry c input m e low =
    if_true (sine_start c && ltb input (start_threshold c)) _ _ (and_both (sine_start c) _ e low)

body_sine :
    (p : Platform) (c : Config) (voltage_based_ramp : Bool) (r : Readings) (m : MotorContext)
    → sine_start c ≡ true
    → ltb m.shared.adjusted_input (start_threshold c) ≡ true
    → (n : MotorContext) × (tick_body p c voltage_based_ramp r
          (record m { shared = armed_of m.shared })
        ≡ some n)
      × Parked stepper_sine n
unfolding tick_body tick_resume handoff_stage throttle_stage entered is_armed as_u8 is_stepper_sine
    Commutation.set_forward
body_sine p c voltage_based_ramp r m e low =
    let input = m.shared.adjusted_input in
    let t = record m {
      shared = record m.shared { changeover_step = 0 };
      commutation = Commutation.set_forward m.commutation m.shared.forward;
    } in
    rw (no_handoff m.shared) (
      _,
      ap (λ x. tick_resume p c voltage_based_ramp r input false (throttle_stage p c input x))
          (entry c input t e low),
      drive_sine p c voltage_based_ramp r input false (entered t),
    )

act_released :
    (p : Platform) (c : Config) (voltage_based_ramp : Bool) (r : Readings) (m : MotorContext)
    (sine : Bool)
    → sine_start c ≡ sine
    → ltb m.shared.adjusted_input (start_threshold c) ≡ true
    → leb (start_threshold c) m.shared.adjusted_input ≡ false
    → (n : MotorContext) × (act_and_go p c voltage_based_ramp r no_action
          (record m { shared = armed_of m.shared })
        ≡ some n)
      × Parked (if sine then stepper_sine else armed) n
unfolding act_and_go take_action
act_released p c voltage_based_ramp r m true e low high = body_sine p c voltage_based_ramp r m e low
act_released p c voltage_based_ramp r m false e low high =
    body_idle p c voltage_based_ramp r m e high

-- A control tick of an armed, stopped motor with the throttle below the start threshold and no
-- requested action never panics and never starts the motor: the motor stays armed, or, with the sine
-- start configured, goes to the sine drive; the setpoint is zero and the counter of zero crosses of
-- the last run is dropped.
pub ten_khz_tick_released :
    (p : Platform) (c : Config) (voltage_based_ramp : Bool) (r : Readings) (m : MotorContext)
    → m.shared.motor_mode ≡ armed
    → action_from_u8 m.shared.isr_action_cell ≡ no_action
    → m.shared.adjusted_input < start_threshold c
    → (n : MotorContext) × (ten_khz_tick p c voltage_based_ramp r m ≡ some n)
      × ((n.shared.motor_mode ≡ (if sine_start c then stepper_sine else armed))
          × (n.shared.duty_cycle_setpoint ≡ 0)
          × (n.shared.zero_crosses ≡ 0))
unfolding ten_khz_tick mask_idle tick_counters increment_control_ticks one_khz_counter_inc
    telem_counter_check_and_inc
ten_khz_tick_released p c voltage_based_ramp r m mode quiet released =
    let s = tick_counters p c m.shared in
    let x = mask_idle (record m { shared = armed_of s }) in
    let low = under c m.shared.adjusted_input released in
    let high = below c m.shared.adjusted_input released in
    subst
      (λ a.
        (n : MotorContext) × (act_and_go p c voltage_based_ramp r a
            (mask_idle (record m { shared = s }))
          ≡ some n)
        × Parked (if sine_start c then stepper_sine else armed) n)
      (sym quiet)
      (subst
        (λ t.
          (n : MotorContext) × (act_and_go p c voltage_based_ramp r no_action
              (mask_idle (record m { shared = t }))
            ≡ some n)
          × Parked (if sine_start c then stepper_sine else armed) n)
        (λ i. record s { motor_mode = sym mode i })
        (act_released p c voltage_based_ramp r x (sine_start c) refl low high))
