-- ===== src/Main/Tick/Modes.antt =====
-- What a tick of the main loop may do to the mode of the motor.
use rm.Prelude.{
  ℕ, ◌≡◌, refl, sym, ap, ◌∙◌, Bool, true, false, Option, none, some, arith, if◌then◌else◌,
}
use rm.Platform.{Platform}
use rm.Constants.{pid_loop_divider}
use rm.Measure.Filter.{FixedPoint}
use rm.Motor.Mode.{
  MotorMode, disarmed, armed, stepper_sine, old_routine, running, is_armed, is_running,
  is_old_routine, is_running_mode, as_u8, transition,
}
use rm.Motor.Pids
use rm.Shared.State.{
  SharedState, set_old_routine, transition_shared, request_action, request_duty_kick_down,
  one_khz_counter_check_and_reset, set_actual_current, set_degrees_celsius,
}
use rm.Main.State.{Loop, AdcReads, Snapshot}
use rm.Main.Protection.{
  clock_stage, fault_stage, stall_stage, threshold_stage, desync_stage, signal_stage, recover,
  is_stalled, polling_seen, settle, fall_back,
}
use rm.Main.Service.{
  erpm_stage, cell_stage, service_stage, telemetry_stage, voltage_stage, measure_stage,
  stall_pid_stage, current_pid_stage, limit_current, speed_pid_stage, then_speed, override_of,
}
use rm.Main.Publish.{publish_stage}
use rm.Main.Tick.{protect, report}

abbrev pub mode_of : Loop → MotorMode
mode_of l = l.shared.motor_mode

abbrev with_mode : Loop → MotorMode → Loop
with_mode l m = record l { shared = record l.shared { motor_mode = m } }

-- Armed or not as before, and running only if running before.
abbrev pub Kept : MotorMode → MotorMode → Type 0
Kept before after =
    (is_armed after ≡ is_armed before) × (is_running after ≡ true → is_running before ≡ true)

stall_stage-Kept :
    (p : Platform) (l : Loop) (m : MotorMode) → Kept m (mode_of (stall_stage p (with_mode l m)))
unfolding stall_stage recover is_stalled set_old_routine transition_shared request_action transition
    is_armed is_running is_old_routine is_running_mode as_u8
stall_stage-Kept p l disarmed = ground arith
stall_stage-Kept p l armed = ground arith
stall_stage-Kept p l stepper_sine = ground arith
stall_stage-Kept p l old_routine = ground arith
stall_stage-Kept p l running = ground arith

desync_stage-Kept :
    (p : Platform) (h : Snapshot) (l : Loop) (m : MotorMode)
    → Kept m (mode_of (desync_stage p h (with_mode l m)))
unfolding desync_stage polling_seen settle fall_back request_duty_kick_down transition_shared
    transition is_armed is_running is_old_routine is_running_mode as_u8
desync_stage-Kept p h l disarmed = ground arith
desync_stage-Kept p h l armed = ground arith
desync_stage-Kept p h l stepper_sine = ground arith
desync_stage-Kept p h l old_routine = ground arith
desync_stage-Kept p h l running = ground arith

-- Armed or running only if so before.
abbrev pub Calmer : MotorMode → MotorMode → Type 0
Calmer before after =
    (is_armed after ≡ true → is_armed before ≡ true)
    × (is_running after ≡ true → is_running before ≡ true)

pub trans-Calmer : (a b c : MotorMode) → Calmer a b → Calmer b c → Calmer a c
trans-Calmer a b c (ab, ab') (bc, bc') = ((λ h. ab (bc h)), (λ h. ab' (bc' h)))

Kept-Calmer : (a b : MotorMode) → Kept a b → Calmer a b
Kept-Calmer a b (same, runs) = ((λ h. sym same ∙ h), runs)

same-Calmer : (a b : MotorMode) → b ≡ a → Calmer a b
same-Calmer a b e = ((λ h. ap is_armed (sym e) ∙ h), (λ h. ap is_running (sym e) ∙ h))

signal_stage-Calmer :
    (p : Platform) (l : Loop) (m : MotorMode) → Calmer m (mode_of (signal_stage p (with_mode l m)))
unfolding signal_stage transition_shared transition is_armed is_running is_old_routine
    is_running_mode as_u8
signal_stage-Calmer p l disarmed = ground arith
signal_stage-Calmer p l armed = ground arith
signal_stage-Calmer p l stepper_sine = ground arith
signal_stage-Calmer p l old_routine = ground arith
signal_stage-Calmer p l running = ground arith

voltage_stage-Calmer :
    (l : Loop) (m : MotorMode) → Calmer m (mode_of (voltage_stage (with_mode l m)))
unfolding voltage_stage transition_shared request_action transition is_armed is_running
    is_old_routine is_running_mode as_u8
voltage_stage-Calmer l disarmed = ground arith
voltage_stage-Calmer l armed = ground arith
voltage_stage-Calmer l stepper_sine = ground arith
voltage_stage-Calmer l old_routine = ground arith
voltage_stage-Calmer l running = ground arith

pub erpm_same : (h : Snapshot) (l : Loop) → mode_of (erpm_stage h l) ≡ mode_of l
unfolding erpm_stage
erpm_same h l = ground arith

stall_pid_same : (p : Platform) (l : Loop) → mode_of (stall_pid_stage p l) ≡ mode_of l
unfolding stall_pid_stage
stall_pid_same p l = ground arith

telemetry_same : (p : Platform) (l : Loop) → mode_of (telemetry_stage p l) ≡ mode_of l
unfolding telemetry_stage
telemetry_same p l = ground arith

override_same : (s : SharedState) (o : Option ℕ) → (override_of s o).motor_mode ≡ s.motor_mode
override_same s none = refl
override_same s (some v) = refl

speed_same : (h : Snapshot) (l : Loop) → mode_of (speed_pid_stage h l) ≡ mode_of l
unfolding speed_pid_stage
speed_same h l = override_same l.shared _

-- A statement about the state that a stage leaves, if it does not panic.
unfoldable pub Holds : (Loop → Type 0) → Option Loop → Type 0
Holds P none = Unit {0}
Holds P (some l) = P l

limited :
    (l : Loop) (o : Option (Pids.PidState × ℕ))
    → Holds (λ x. mode_of x ≡ mode_of l) (limit_current l o)
unfolding Holds limit_current
limited l none = tt
limited l (some r) = refl

current_same : (l : Loop) → Holds (λ x. mode_of x ≡ mode_of l) (current_pid_stage l)
unfolding current_pid_stage
current_same l = limited l _

speed_then :
    (h : Snapshot) (m : MotorMode) (o : Option Loop)
    → Holds (λ x. mode_of x ≡ m) o
    → Holds (λ x. mode_of x ≡ m) (then_speed h o)
unfolding Holds then_speed
speed_then h m none done = tt
speed_then h m (some l) done = speed_same h l ∙ done

holds_if :
    (P : Loop → Type 0) (b : Bool) (x y : Option Loop)
    → Holds P x
    → Holds P y
    → Holds P (if b then x else y)
holds_if P true x y hx hy = hx
holds_if P false x y hx hy = hy

pub holds_map :
    (P Q : Loop → Type 0) (o : Option Loop) → ((l : Loop) → P l → Q l) → Holds P o → Holds Q o
unfolding Holds
holds_map P Q none f h = tt
holds_map P Q (some l) f h = f l h

pub service_stage-Calmer :
    (p : Platform) (fixed : FixedPoint) (a : AdcReads) (h : Snapshot) (l : Loop)
    → Holds (λ x. Calmer (mode_of l) (mode_of x)) (service_stage p fixed a h l)
unfolding service_stage one_khz_counter_check_and_reset measure_stage set_actual_current
    set_degrees_celsius Holds
service_stage-Calmer p fixed a h l =
    let n = record l {
      shared = (one_khz_counter_check_and_reset l.shared (pid_loop_divider p)).0;
    } in
    let v = voltage_stage (measure_stage fixed a n) in
    let w = stall_pid_stage p v in
    let served =
      holds_map _ (λ x. Calmer (mode_of l) (mode_of x)) (then_speed h (current_pid_stage w))
        (λ x same.
          trans-Calmer (mode_of l) (mode_of v) (mode_of x)
            (voltage_stage-Calmer (measure_stage fixed a n) (mode_of l))
            (same-Calmer (mode_of v) (mode_of x) (same ∙ stall_pid_same p v)))
        (speed_then h (mode_of w) (current_pid_stage w) (current_same w)) in
    holds_if (λ x. Calmer (mode_of l) (mode_of x))
      (one_khz_counter_check_and_reset l.shared (pid_loop_divider p)).1
      (then_speed h (current_pid_stage w)) (some n) served
      (same-Calmer (mode_of l) (mode_of l) refl)

pub report_same :
    (p : Platform) (h : Snapshot) (m : MotorMode) (o : Option Loop)
    → Holds (λ x. Calmer m (mode_of x)) o
    → Holds (λ x. Calmer m (mode_of x)) (report p h o)
unfolding Holds report publish_stage
report_same p h m none done = tt
report_same p h m (some l) done =
    trans-Calmer m (mode_of l) (mode_of (telemetry_stage p l)) done
      (same-Calmer (mode_of l) (mode_of (telemetry_stage p l)) (telemetry_same p l))

-- The stages before the signal timeouts keep the motor armed or not.
pub before_signal :
    (p : Platform) (h : Snapshot) (l : Loop)
    → Kept (mode_of l) (
        mode_of
          (desync_stage p h (threshold_stage h (stall_stage p (fault_stage h (clock_stage p l))))))
unfolding threshold_stage fault_stage clock_stage
before_signal p h l =
    let f = fault_stage h (clock_stage p l) in
    let s = stall_stage p f in
    let (same, runs) = stall_stage-Kept p f (mode_of l) in
    let (same', runs') = desync_stage-Kept p h (threshold_stage h s) (mode_of s) in
    (same' ∙ same, λ x. runs (runs' x))

pub protect-Calmer :
    (p : Platform) (h : Snapshot) (l : Loop) → Calmer (mode_of l) (mode_of (protect p h l))
unfolding protect cell_stage
protect-Calmer p h l =
    let d =
      desync_stage p h (threshold_stage h (stall_stage p (fault_stage h (clock_stage p l)))) in
    let s = signal_stage p d in
    trans-Calmer (mode_of l) (mode_of s) (mode_of (erpm_stage h s))
      (trans-Calmer (mode_of l) (mode_of d) (mode_of s)
        (Kept-Calmer (mode_of l) (mode_of d) (before_signal p h l))
        (signal_stage-Calmer p d (mode_of d)))
      (same-Calmer (mode_of s) (mode_of (erpm_stage h s)) (erpm_same h s))
