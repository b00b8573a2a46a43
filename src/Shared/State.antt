-- ===== src/Shared/State.antt =====
-- `SharedState` of rm32/src/shared_state.rs: the cells as one record, with the operations that do
-- more than load or store one cell. A plain getter is a field and a plain setter is a record update.
-- The cell of the motor mode only ever holds codes of modes and is kept decoded; signed measurements
-- stay the unsigned words that the cells hold. An operation is one atomic step, as the source's
-- compare-and-swap loops are. The counters that only the tests read are left out.
pub mod Cells
use rm.Prelude.{
  ℕ, ◌+◌, ◌-◌, ◌*◌, Bool, true, false, not, ◌&&◌, Option, none, some, ltb, leb, ◌==◌, if◌then◌else◌,
  u32, sat_add8, sat_add16,
}
use rm.Prelude.Int.{ℤ, signed16, signed32, pos, negsuc, as_u16}
use rm.Platform.{Platform}
use rm.Constants.{initial_commutation_interval}
use rm.Motor.Mode.{
  MotorMode, MotorEvent, is_armed, is_running, is_stepper_sine, is_old_routine, transition,
}
use rm.Shared.Action.{IsrAction, action_from_u8, request_isr_action, clear_isr_action}
use rm.Shared.Queue.{Queue, empty_queue}

pub record SharedState : Type 0 where
  pub motor_mode : MotorMode
  pub input_set : Bool
  pub send_telemetry : Bool
  pub dshot : Bool
  pub servo_pwm : Bool
  pub dshot_telemetry : Bool
  pub save_settings_flag : Bool
  pub tone_request : ℕ
  pub tone_active : Bool
  pub send_esc_info_flag : Bool
  pub pending_servo_calibration : Bool
  pub pending_servo_low_threshold : ℕ
  pub pending_servo_high_threshold : ℕ
  pub config_write : Queue
  pub control_ticks : ℕ
  pub zero_crosses : ℕ
  pub commutation_interval : ℕ
  pub newinput : ℕ
  pub adjusted_input : ℕ
  pub duty_cycle_setpoint : ℕ
  pub duty_cycle : ℕ
  pub forward : Bool
  pub signal_timeout : ℕ
  pub zero_input_count : ℕ
  pub e_com_time : ℕ
  pub gate_avg : ℕ
  pub interval_timer_count : ℕ
  pub stall_protection_adjust : ℕ
  pub current_limit_adjust : ℕ
  pub actual_current : ℕ
  pub battery_voltage : ℕ
  pub degrees_celsius : ℕ
  pub tim1_arr : ℕ
  pub duty_maximum : ℕ
  pub filter_level : ℕ
  pub min_bemf_counts : ℕ
  pub auto_advance : ℕ
  pub prop_brake_active : Bool
  pub isr_action_cell : ℕ
  pub duty_kick_down : Bool
  pub changeover_step : ℕ
  pub desync_check_pending : Bool
  pub one_khz_counter : ℕ
  pub telem_counter : ℕ

unfoldable pub new_shared : Platform → SharedState
unfolding empty_queue
new_shared p = record {
  motor_mode = MotorMode.disarmed;
  input_set = false;
  send_telemetry = false;
  dshot = false;
  servo_pwm = false;
  dshot_telemetry = false;
  save_settings_flag = false;
  tone_request = 0;
  tone_active = false;
  send_esc_info_flag = false;
  pending_servo_calibration = false;
  pending_servo_low_threshold = 0;
  pending_servo_high_threshold = 0;
  config_write = empty_queue;
  control_ticks = 0;
  zero_crosses = 0;
  commutation_interval = initial_commutation_interval p;
  newinput = 0;
  adjusted_input = 0;
  duty_cycle_setpoint = 0;
  duty_cycle = 0;
  forward = true;
  signal_timeout = 0;
  zero_input_count = 0;
  e_com_time = 0;
  gate_avg = 0;
  interval_timer_count = 0;
  stall_protection_adjust = 0;
  current_limit_adjust = 2000;
  actual_current = 0;
  battery_voltage = 0;
  degrees_celsius = 0;
  tim1_arr = p.pwm_base_period;
  duty_maximum = 2000;
  filter_level = 5;
  min_bemf_counts = 2;
  auto_advance = 0;
  prop_brake_active = false;
  isr_action_cell = 0;
  duty_kick_down = false;
  changeover_step = 0;
  desync_check_pending = false;
  one_khz_counter = 0;
  telem_counter = 0;
}

abbrev pub armed : SharedState → Bool
armed s = is_armed s.motor_mode

abbrev pub running : SharedState → Bool
running s = is_running s.motor_mode

abbrev pub old_routine : SharedState → Bool
old_routine s = is_old_routine s.motor_mode

abbrev pub stepper_sine : SharedState → Bool
stepper_sine s = is_stepper_sine s.motor_mode

unfoldable pub increment_control_ticks : SharedState → SharedState
increment_control_ticks s = record s { control_ticks = u32 (s.control_ticks + 1) }

unfoldable pub one_khz_counter_inc : SharedState → SharedState
one_khz_counter_inc s = record s { one_khz_counter = sat_add8 s.one_khz_counter 1 }

unfoldable pub one_khz_counter_check_and_reset : SharedState → ℕ → SharedState × Bool
one_khz_counter_check_and_reset s divider =
    let due = leb divider s.one_khz_counter in
    (record s { one_khz_counter = if due then 0 else s.one_khz_counter }, due)

unfoldable pub telem_counter_check_and_inc : SharedState → ℕ → SharedState × Bool
telem_counter_check_and_inc s limit =
    let next = sat_add16 s.telem_counter 1 in
    (record s { telem_counter = if leb limit next then 0 else next }, leb limit next)

unfoldable pub transition_shared : SharedState → MotorEvent → SharedState
transition_shared s e = record s { motor_mode = transition s.motor_mode e }

unfoldable pub set_armed : SharedState → Bool → SharedState
set_armed s v =
    if v
    then (if is_armed s.motor_mode then s else record s { motor_mode = MotorMode.armed })
    else record s { motor_mode = MotorMode.disarmed }

unfoldable pub set_running : SharedState → Bool → SharedState
set_running s v =
    if v && not (is_running s.motor_mode)
    then record s { motor_mode = MotorMode.old_routine }
    else if not v && is_running s.motor_mode
    then record s { motor_mode = MotorMode.armed }
    else s

unfoldable pub set_old_routine : SharedState → Bool → SharedState
set_old_routine s v =
    if v && is_running s.motor_mode
    then record s { motor_mode = MotorMode.old_routine }
    else if not v && is_old_routine s.motor_mode
    then record s { motor_mode = MotorMode.running }
    else s

unfoldable pub set_stepper_sine : SharedState → Bool → SharedState
set_stepper_sine s v =
    if v
    then record s { motor_mode = MotorMode.stepper_sine }
    else if is_stepper_sine s.motor_mode
    then record s { motor_mode = MotorMode.armed }
    else s

unfoldable pub set_tone_request : SharedState → ℕ → SharedState
set_tone_request s id = record s { tone_request = id }

-- `TONE_ARMED` of rm32/src/tone.rs.
abbrev pub tone_armed : ℕ
tone_armed = 6

unfoldable pub set_arming_tone_request : SharedState → ℕ → SharedState
set_arming_tone_request s cell_count =
    let repeats = if cell_count == 0 then 1 else cell_count in
    record s { tone_request = repeats * 256 + tone_armed }

unfoldable pub take_tone_request : SharedState → SharedState × ℕ
take_tone_request s = (record s { tone_request = 0 }, s.tone_request)

unfoldable pub publish_servo_calibration : SharedState → ℕ → ℕ → SharedState
publish_servo_calibration s low_threshold high_threshold = record s {
  pending_servo_low_threshold = low_threshold;
  pending_servo_high_threshold = high_threshold;
  pending_servo_calibration = true;
}

unfoldable pub take_servo_calibration : SharedState → SharedState × Option (ℕ × ℕ)
take_servo_calibration s =
    if s.pending_servo_calibration
    then (
      record s { pending_servo_calibration = false },
      some (s.pending_servo_low_threshold, s.pending_servo_high_threshold),
    )
    else (s, none)

unfoldable pub increment_zero_crosses : SharedState → SharedState
increment_zero_crosses s = record s {
  zero_crosses = if ltb s.zero_crosses 10000 then s.zero_crosses + 1 else s.zero_crosses;
}

unfoldable pub increment_signal_timeout : SharedState → SharedState
increment_signal_timeout s =
    let v = s.signal_timeout in record s { signal_timeout = if ltb v 4294967295 then v + 1 else v }

-- The 32 bits of an i32.
abbrev pub as_u32 : ℤ → ℕ
as_u32 (pos n) = u32 n
as_u32 (negsuc n) = 4294967295 - u32 n

abbrev pub e_com_time_of : SharedState → ℤ
e_com_time_of s = signed32 s.e_com_time

unfoldable pub set_e_com_time : SharedState → ℤ → SharedState
set_e_com_time s v = record s { e_com_time = as_u32 v }

abbrev pub actual_current_of : SharedState → ℤ
actual_current_of s = signed16 s.actual_current

unfoldable pub set_actual_current : SharedState → ℤ → SharedState
set_actual_current s v = record s { actual_current = as_u16 v }

abbrev pub degrees_celsius_of : SharedState → ℤ
degrees_celsius_of s = signed16 s.degrees_celsius

unfoldable pub set_degrees_celsius : SharedState → ℤ → SharedState
set_degrees_celsius s v = record s { degrees_celsius = as_u16 v }

abbrev pub isr_action : SharedState → IsrAction
isr_action s = action_from_u8 s.isr_action_cell

unfoldable pub request_action : SharedState → IsrAction → SharedState
request_action s a = record s { isr_action_cell = request_isr_action s.isr_action_cell a }

unfoldable pub clear_action : SharedState → IsrAction → SharedState
clear_action s a = record s { isr_action_cell = clear_isr_action s.isr_action_cell a }

unfoldable pub request_duty_kick_down : SharedState → SharedState
request_duty_kick_down s = record s { duty_kick_down = true }

unfoldable pub take_duty_kick_down : SharedState → SharedState × Bool
take_duty_kick_down s = (record s { duty_kick_down = false }, s.duty_kick_down)

unfoldable pub take_desync_check_pending : SharedState → SharedState × Bool
take_desync_check_pending s = (record s { desync_check_pending = false }, s.desync_check_pending)
