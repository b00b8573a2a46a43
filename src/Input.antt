-- ===== src/Input.antt =====
-- rm32/src/control/input.rs, `process_input`: from the raw throttle to the input of the control loop.
-- `Shared` holds the cells of the shared state that it reads and writes; the requested timer action
-- is the flag `all_off`. The mode cell changes by the compare-and-swap loop of shared_state.rs.
pub mod Mapping
pub mod Ranges
pub mod Pipeline
use rm.Prelude.{
  ℕ, ◌+◌, ◌-◌, ◌*◌, Bool, true, false, not, ◌&&◌, Option, none, some, ltb, leb, ◌==◌, ◌!=◌,
  if◌then◌else◌,
}
use rm.Motor.Mode.{MotorMode, is_armed, is_stepper_sine, is_running}
use rm.Config.{Config, field}
use rm.Config.At
use rm.Constants.{throttle_min_signal, servo_center, bemf_fault_latched}
use Mapping.{
  ReverseMode, speed_gated, rc_car, InputMode, unidirectional, bidir_dshot, bidir_servo, is_rc_car,
  BidirResult, dshot_bidir, dshot_rc_car, servo_bidir, servo_rc_car, sine_start_map, db2,
  above_center,
}

pub record Shared : Type 0 where
  pub newinput : ℕ
  pub adjusted_input : ℕ
  pub forward : Bool
  pub commutation_interval : ℕ
  pub duty_cycle : ℕ
  pub zero_crosses : ℕ
  pub motor_mode : MotorMode
  pub prop_brake : Bool
  pub all_off : Bool

pub record ProtectionState : Type 0 where
  pub bemf_timeout_happened : ℕ
  pub bemf_timeout : ℕ
  pub low_voltage_count : ℕ
  pub low_voltage_cutoff : Bool

pub record InputState : Type 0 where
  pub prop_brake_active : Bool
  pub return_to_center : Bool
  pub reverse_speed_threshold : ℕ
  pub input : ℕ
  pub mode : InputMode

-- `set_old_routine(true)`: only a running motor changes its mode.
unfoldable pub to_old_routine : MotorMode → MotorMode
to_old_routine m = if is_running m then MotorMode.old_routine else m

-- The match arm of a speed-gated map: the published throttle, and a reversal restarts the motor.
unfoldable pub apply_gated : Shared → BidirResult → Shared
apply_gated s r =
    let t = record s { adjusted_input = r.adjusted } in
    if r.reverse
    then record t {
      forward = not s.forward;
      zero_crosses = 0;
      motor_mode = to_old_routine s.motor_mode;
    }
    else t

-- The match arm of an RC-car map, as far as it writes the shared state.
unfoldable pub apply_rc_shared : Shared → BidirResult → Shared
apply_rc_shared s r =
    let t = record s { adjusted_input = r.adjusted } in
    if r.reverse then record t { forward = not s.forward } else t

-- `in_center`: inside the dead band of a servo, or no throttle of a DShot input.
unfoldable pub in_center : ℕ → Option ℕ → Bool
in_center newinput (some db) =
    leb (servo_center - db2 db) newinput && leb newinput (above_center db)
in_center newinput none = leb newinput throttle_min_signal

unfoldable pub apply_rc_car_result : InputState → BidirResult → ℕ → Option ℕ → InputState
apply_rc_car_result i r newinput dead_band =
    let centred = if r.reverse then false else i.return_to_center in
    let braking = if r.prop_brake then true else i.prop_brake_active in
    if in_center newinput dead_band && braking
    then record i { prop_brake_active = false; return_to_center = true }
    else record i { prop_brake_active = braking; return_to_center = centred }

-- The first match of `process_input`.
unfoldable pub map_direction : Shared → Config → InputState → InputMode → Shared × InputState
map_direction s c i unidirectional = (record s { adjusted_input = s.newinput }, i)
map_direction s c i (bidir_dshot speed_gated) = (
  apply_gated s (
      dshot_bidir s.newinput s.forward (field c At.dir_reversed != 0) s.commutation_interval
        s.duty_cycle (is_stepper_sine s.motor_mode) i.reverse_speed_threshold),
  i,
)
map_direction s c i (bidir_dshot rc_car) =
    let r =
      dshot_rc_car s.newinput s.forward (field c At.dir_reversed != 0) i.prop_brake_active
        i.return_to_center in
    (apply_rc_shared s r, apply_rc_car_result i r s.newinput none)
map_direction s c i (bidir_servo speed_gated dead_band) = (
  apply_gated s (
      servo_bidir s.newinput s.forward (field c At.dir_reversed != 0) s.commutation_interval
        s.duty_cycle (is_stepper_sine s.motor_mode) i.reverse_speed_threshold dead_band),
  i,
)
map_direction s c i (bidir_servo rc_car dead_band) =
    let r =
      servo_rc_car s.newinput s.forward (field c At.dir_reversed != 0) i.prop_brake_active
        i.return_to_center dead_band in
    (apply_rc_shared s r, apply_rc_car_result i r s.newinput (some dead_band))

-- The stuck-rotor test, and the state that the latch leaves.
unfoldable pub is_stuck : ProtectionState → Config → Bool
is_stuck p c =
    ltb p.bemf_timeout p.bemf_timeout_happened && (field c At.stuck_rotor_protection != 0)

-- The brake-on-stop rule outside RC-car mode.
unfoldable pub brake_on_stop : Shared → Config → InputState → Bool
brake_on_stop s c i =
    if is_rc_car i.mode
    then i.prop_brake_active
    else if is_armed s.motor_mode
        && not (is_stepper_sine s.motor_mode)
        && ltb i.input throttle_min_signal
        && (field c At.brake_on_stop == 1)
        && (field c At.comp_pwm != 0)
    then true
    else if leb throttle_min_signal i.input
    then false
    else i.prop_brake_active

-- The sine start map of a throttle; commands pass unchanged.
unfoldable pub shaped : Config → ℕ → ℕ
shaped c adjusted =
    if (field c At.use_sine_start != 0) && ltb throttle_min_signal adjusted
    then sine_start_map adjusted (field c At.sine_mode_changeover_throttle_level)
    else adjusted

abbrev latched : Shared × InputState → ProtectionState → Shared × ProtectionState × InputState
latched (s, i) p = (
  record s { adjusted_input = 0; prop_brake = false; all_off = true },
  record p { bemf_timeout_happened = bemf_fault_latched },
  record i { input = 0; prop_brake_active = false },
)

abbrev finished :
    Config → Shared × InputState → ProtectionState → Shared × ProtectionState × InputState
finished c (s, i) p =
    let input = shaped c s.adjusted_input in
    let j = record i { input = input } in
    let brake = brake_on_stop s c j in
    (
      record s { adjusted_input = input; prop_brake = brake },
      p,
      record j { prop_brake_active = brake },
    )

unfoldable pub process_input :
    Shared → Config → ProtectionState → InputState → Shared × ProtectionState × InputState
process_input s c p i =
    let mapped = map_direction s c i i.mode in
    if is_stuck p c then latched mapped p else finished c mapped p
