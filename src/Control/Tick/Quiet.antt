-- ===== src/Control/Tick/Quiet.antt =====
-- A disarmed motor without an input, over any number of control ticks.
use rm.Prelude.{
  ℕ, suc, if◌then◌else◌, Bool, false, Option, none, some, List, [], ◌∷◌, ◌≡◌, refl, sym, ◌∙◌, ap,
  arith,
}
use mathlib.Core.Path.{subst}
use rm.Platform.{Platform}
use rm.Config.{Config}
use rm.Bridge.{HalCall}
use rm.Motor.Mode
use rm.Motor.Mode.{disarmed}
use rm.Motor.Duty
use rm.Motor.Commutation
use rm.Shared.Action.{IsrAction, no_action, reset_interval_timer, commutate_kick, all_off}
use rm.Shared.State.{
  SharedState, take_duty_kick_down, clear_action, isr_action, increment_control_ticks,
  one_khz_counter_inc, telem_counter_check_and_inc, transition_shared, increment_signal_timeout,
  request_action,
}
use rm.Control.Motor.{MotorContext, Readings}
use rm.Control.Stages.{
  tick_counters, mask_idle, all_off_arm, reset_timer_arm, commutate_kick_arm, take_action,
  is_handoff, handoff_stage, sine_entry_stage, throttle_stage,
}
use rm.Control.Outputs.{
  duty_stage, arming_stage, polling_stage, ramp_stage, output_flags, tone_owns_bridge, bridge_busy,
  drive_arm, brake_arm, output_stage,
}
use rm.Control.Tick.{tick_drive, tick_resume, tick_body, act_and_go, ten_khz_tick}
use rm.Control.Tick.Safety.{is_drive}

-- What happens between two control ticks: the input handling publishes a throttle, another context
-- requests an action, and the hardware has its readings for the next tick.
pub record Interval : Type 0 where
  pub adjusted_input : ℕ
  pub requested : IsrAction
  pub readings : Readings

unfoldable pub interrupted : Interval → MotorContext → MotorContext
interrupted i m = record m {
  shared = request_action (record m.shared { adjusted_input = i.adjusted_input }) i.requested;
}

unfoldable pub tick_after :
    Platform → Config → Bool → Interval → Option MotorContext → Option MotorContext
unfolding interrupted
tick_after p c voltage_based_ramp i none = none
tick_after p c voltage_based_ramp i (some m) =
    ten_khz_tick p c voltage_based_ramp i.readings (interrupted i m)

-- The ticks after each of the intervals, the first interval first.
unfoldable pub ticks :
    Platform → Config → Bool → List Interval → Option MotorContext → Option MotorContext
ticks p c voltage_based_ramp [] o = o
ticks p c voltage_based_ramp (i ∷ is) o =
    ticks p c voltage_based_ramp is (tick_after p c voltage_based_ramp i o)

-- The number of calls that drive the bridge or set the commutation timer.
unfoldable pub drive_count : List HalCall → ℕ
unfolding is_drive
drive_count [] = 0
drive_count (c ∷ cs) = let rest = drive_count cs in if is_drive c then suc rest else rest

-- Disarmed, without an input and with the brake released, and not driven since the calls so far.
abbrev IsQuiet : List HalCall → MotorContext → Type 0
IsQuiet calls n =
    (n.shared.motor_mode ≡ disarmed)
    × (n.shared.input_set ≡ false)
    × (n.shared.prop_brake_active ≡ false)
    × (drive_count n.calls ≡ drive_count calls)

abbrev unset_of : SharedState → SharedState
unset_of s = record s { motor_mode = disarmed; input_set = false; prop_brake_active = false }

tick_drive-IsQuiet :
    (p : Platform) (c : Config) (voltage_based_ramp : Bool) (r : Readings) (input : ℕ)
    (handoff : Bool) (m : MotorContext)
    → IsQuiet m.calls (
        tick_drive p c voltage_based_ramp r input handoff (record m { shared = unset_of m.shared }))
unfolding tick_drive duty_stage arming_stage polling_stage ramp_stage output_stage output_flags
    tone_owns_bridge bridge_busy drive_arm brake_arm take_duty_kick_down increment_signal_timeout
    transition_shared Mode.is_armed Mode.is_running Mode.is_old_routine Mode.is_stepper_sine
    Mode.as_u8 Mode.is_running_mode Mode.transition drive_count is_drive Duty.finalize
tick_drive-IsQuiet p c voltage_based_ramp r input handoff m = ground arith

no_handoff : (s : SharedState) → is_handoff (unset_of s) ≡ false
unfolding is_handoff Mode.is_stepper_sine
no_handoff s = ground arith

tick_body-IsQuiet :
    (p : Platform) (c : Config) (voltage_based_ramp : Bool) (r : Readings) (m : MotorContext)
    → (n : MotorContext) × (tick_body p c voltage_based_ramp r
          (record m { shared = unset_of m.shared })
        ≡ some n)
      × IsQuiet m.calls n
unfolding tick_body tick_resume handoff_stage sine_entry_stage throttle_stage Mode.is_armed
    Mode.as_u8 Mode.is_stepper_sine Mode.is_running Mode.is_old_routine Mode.is_running_mode
    Commutation.set_forward
tick_body-IsQuiet p c voltage_based_ramp r m =
    let t = record m {
      shared = record m.shared { changeover_step = 0 };
      commutation = Commutation.set_forward m.commutation m.shared.forward;
    } in
    rw (no_handoff m.shared)
      (_, refl, tick_drive-IsQuiet p c voltage_based_ramp r m.shared.adjusted_input false t)

act_and_go-IsQuiet :
    (p : Platform) (c : Config) (voltage_based_ramp : Bool) (r : Readings) (a : IsrAction)
    (m : MotorContext)
    → (n : MotorContext) × (act_and_go p c voltage_based_ramp r a
          (record m { shared = unset_of m.shared })
        ≡ some n)
      × IsQuiet m.calls n
unfolding act_and_go take_action all_off_arm reset_timer_arm commutate_kick_arm clear_action
    take_duty_kick_down Mode.is_running Mode.is_old_routine Mode.is_running_mode drive_count
    is_drive
act_and_go-IsQuiet p c voltage_based_ramp r no_action m =
    tick_body-IsQuiet p c voltage_based_ramp r m
act_and_go-IsQuiet p c voltage_based_ramp r reset_interval_timer m =
    tick_body-IsQuiet p c voltage_based_ramp r (reset_timer_arm m)
act_and_go-IsQuiet p c voltage_based_ramp r commutate_kick m =
    tick_body-IsQuiet p c voltage_based_ramp r
      (commutate_kick_arm (record m { shared = unset_of m.shared }) r.count_at_entry)
act_and_go-IsQuiet p c voltage_based_ramp r all_off m = (_, refl, (refl, refl, refl, refl))

ten_khz_tick-IsQuiet :
    (p : Platform) (c : Config) (voltage_based_ramp : Bool) (r : Readings) (m : MotorContext)
    → m.shared.motor_mode ≡ disarmed
    → m.shared.input_set ≡ false
    → m.shared.prop_brake_active ≡ false
    → (n : MotorContext) × (ten_khz_tick p c voltage_based_ramp r m ≡ some n) × IsQuiet m.calls n
unfolding ten_khz_tick mask_idle tick_counters increment_control_ticks one_khz_counter_inc
    telem_counter_check_and_inc drive_count is_drive Mode.is_running Mode.is_old_routine
    Mode.is_running_mode
ten_khz_tick-IsQuiet p c voltage_based_ramp r m mode unset brake =
    let s = tick_counters p c m.shared in
    subst
      (λ t.
        (n : MotorContext) × (act_and_go p c voltage_based_ramp r (isr_action s)
            (mask_idle (record m { shared = t }))
          ≡ some n)
        × IsQuiet m.calls n)
      (λ i. record s {
        motor_mode = sym mode i;
        input_set = sym unset i;
        prop_brake_active = sym brake i;
      })
      (act_and_go-IsQuiet p c voltage_based_ramp r (isr_action s)
        (mask_idle (record m { shared = unset_of s })))

-- Over any number of control ticks of a disarmed motor for which no input is set, whatever throttle is
-- published and whatever actions are requested between them, no tick panics, the motor is never armed,
-- and no call drives the bridge or sets the commutation timer. The proportional brake is taken as not
-- engaged at the start.
pub ticks_keep_quiet :
    (p : Platform) (c : Config) (voltage_based_ramp : Bool) (is : List Interval) (m : MotorContext)
    → m.shared.motor_mode ≡ disarmed
    → m.shared.input_set ≡ false
    → m.shared.prop_brake_active ≡ false
    → (n : MotorContext) × (ticks p c voltage_based_ramp is (some m) ≡ some n)
      × (n.shared.motor_mode ≡ disarmed)
      × (n.shared.input_set ≡ false)
      × (drive_count n.calls ≡ drive_count m.calls)
unfolding ticks tick_after interrupted request_action
ticks_keep_quiet p c voltage_based_ramp [] m mode unset brake = (m, refl, mode, unset, refl)
ticks_keep_quiet p c voltage_based_ramp (i ∷ is) m mode unset brake =
    let (t, done, (disarmed', unset', brake', same)) =
      ten_khz_tick-IsQuiet p c voltage_based_ramp i.readings (interrupted i m) mode unset brake in
    let (n, rest, disarmed'', unset'', quiet) =
      ticks_keep_quiet p c voltage_based_ramp is t disarmed' unset' brake' in
    (n, ap (ticks p c voltage_based_ramp is) done ∙ rest, disarmed'', unset'', quiet ∙ same)
