-- ===== src/Examples/Data.antt =====
-- The states and inputs that the examples share.
use rm.Prelude.{ℕ, ◌+◌, ◌++◌, set, true, false, List, [], ◌∷◌, some, replicate}
use rm.Prelude.Int.{pos}
use rm.Platform.{Platform}
use rm.Config.{Config}
use rm.Motor.Mode.{MotorMode}
use rm.Motor.Commutation.{Commutation}
use rm.Motor.Pid.{Pid}
use rm.Motor.Bemf.{BemfState}
use rm.Motor.Duty.{DutyState}
use rm.Motor.Pids.{PidState}
use rm.Dshot.Commands.{CommandProcessor, Borrowed}
use rm.Servo.{ServoState}
use rm.Transfer.Steps.{TransferState, DetectedProtocol}
use rm.Transfer.{Call}
use rm.Input.{Shared, ProtectionState, InputState}
use rm.Input.Mapping.{InputMode, ReverseMode}

abbrev pub board : Platform
board = record {
  tick_hz = 20000;
  timer_hz = 2000000;
  capture_hz = 96000000;
  gcr_shift = 7;
  pwm_base_period = 1999;
}

abbrev pub blank : Config
blank = replicate 192 0

abbrev pub wheel : Commutation
wheel = record {
  step = 6;
  forward = true;
  rising = false;
  desync_check = false;
  intervals = 500 ∷ (500 ∷ (500 ∷ (500 ∷ (500 ∷ (500 ∷ (500 ∷ (500 ∷ [])))))));
  interval_sum = 4000;
}

abbrev pub gains : Pid
gains = record {
  error = pos 0;
  kp = 400;
  ki = 0;
  kd = 1000;
  integral = pos 0;
  derivative = pos 0;
  last_error = pos 0;
  pid_output = pos 0;
  integral_limit = pos 20000;
  output_limit = pos 100000;
}

-- A controller that is about to saturate its integral, on a falling error.
abbrev pub tuned : Pid
tuned = record gains { ki = 20; integral = pos 19000; last_error = pos 260 }

abbrev pub sensing : BemfState
sensing = record {
  counter = 0;
  zc_found = false;
  min_counts_up = 3;
  min_counts_down = 3;
  bad_count = 0;
  bad_count_threshold = 2;
  filter_level = 8;
  wait_time = 0;
  last_zc_time = 400;
  this_zc_time = 420;
  temp_advance = 16;
}

abbrev pub duty : DutyState
duty = record {
  cycle = 900;
  maximum = 2000;
  last = 500;
  adjusted = 0;
  min_startup = 120;
  startup_max = 200;
  minimum = 5;
  max_change = 2;
  ramp_count = 3;
  ramp_divider = 0;
  max_ramp_startup = 2;
  max_ramp_low_rpm = 6;
  max_ramp_high_rpm = 16;
  sine_outputs_on = false;
  active_brake_on = false;
}

abbrev pub reversed : DutyState
reversed = record duty { min_startup = 210 }

abbrev pub limiter : PidState
limiter = record {
  current = gains;
  speed = gains;
  stall = gains;
  use_current_limit = true;
  current_limit_adjust = pos 2000;
  stall_adjust = pos 0;
  stall_protect_target_interval = 6500;
  use_speed_control = false;
  input_override = pos 0;
  target_e_com_time = 0;
}

abbrev pub commander : CommandProcessor
commander = record {
  command_count = 0;
  last_command = 0;
  programming_mode = 1;
  position = 0;
  new_byte = 0;
  extended_telemetry = false;
  send_edt_init = false;
  send_edt_deinit = false;
}

abbrev pub owner : Borrowed
owner = record { config = blank; forward = true; edt_armed = false }

abbrev pub stick : ServoState
stick = record {
  low_threshold = 1100;
  high_threshold = 1900;
  neutral = 1500;
  dead_band = 100;
  max_deviation = 250;
  raw_input = pos 0;
  calibration_required = false;
  high_calibration_set = false;
  high_calibration_counts = 0;
  low_calibration_counts = 0;
  last_high_threshold = 0;
}

abbrev pub last_pulse : ServoState
last_pulse = record stick {
  calibration_required = true;
  high_calibration_set = true;
  high_calibration_counts = 50;
  low_calibration_counts = 75;
}

-- A calibration that is about to start, a glitch, and the stick held high.
abbrev pub raised_stick : ServoState
raised_stick = record stick { calibration_required = true; high_calibration_counts = 0 }

abbrev pub held_high : List (ℕ × ℕ)
held_high = (700, 0) ∷ replicate 51 (1900, 0)

abbrev pub receiver : TransferState
receiver = record {
  servo_state = stick;
  average_count = 0;
  average_packet_length = 0;
  enter_calibration_count = 0;
  last_input = 0;
  high_pin_count = 100;
  bidir_confirms = 3;
  pending_protocol = some DetectedProtocol.dshot;
}

abbrev pub dshot_call : Call
dshot_call = record {
  input_set = true;
  dshot_mode = true;
  servo_mode = false;
  dshot_telemetry = false;
  armed = false;
  input_pin_high = true;
  adjusted_input = 0;
  current_newinput = 0;
  bidirectional = false;
  disable_stick_cal = false;
  frametime_low = 1000;
  frametime_high = 2000;
}

abbrev pub first_call : Call
first_call = record dshot_call { input_set = false }

abbrev pub short_pulse : List ℕ → ℕ → List ℕ
short_pulse edges t = t ∷ ((t + 30) ∷ edges)

abbrev pub long_pulse : List ℕ → ℕ → List ℕ
long_pulse edges t = t ∷ ((t + 70) ∷ edges)

abbrev pub four_pulses : List ℕ → ℕ → List ℕ
four_pulses edges t =
    long_pulse (short_pulse (short_pulse (long_pulse edges (t + 300)) (t + 200)) (t + 100)) t

abbrev pub burst : List ℕ
burst = four_pulses (four_pulses (four_pulses (four_pulses [] 1300) 900) 500) 100

abbrev pub turning : Shared
turning = record {
  newinput = 1500;
  adjusted_input = 0;
  forward = false;
  commutation_interval = 500;
  duty_cycle = 300;
  zero_crosses = 50;
  motor_mode = MotorMode.running;
  prop_brake = false;
  all_off = false;
}

abbrev pub protection : ProtectionState
protection = record {
  bemf_timeout_happened = 0;
  bemf_timeout = 10;
  low_voltage_count = 0;
  low_voltage_cutoff = false;
}

abbrev pub locked : ProtectionState
locked = record {
  bemf_timeout_happened = 11;
  bemf_timeout = 10;
  low_voltage_count = 0;
  low_voltage_cutoff = false;
}

abbrev pub crawler : InputState
crawler = record {
  prop_brake_active = false;
  return_to_center = false;
  reverse_speed_threshold = 1500;
  input = 0;
  mode = InputMode.bidir_dshot ReverseMode.rc_car;
}

abbrev pub guarded : Config
guarded = replicate 22 0 ++ 1 ∷ replicate 169 0

abbrev pub boosted : Config
boosted = set (set blank 25 100) 24 48

abbrev pub calibrated : ServoState
calibrated = record last_pulse {
  low_threshold = 1137;
  calibration_required = false;
  low_calibration_counts = 0;
}

abbrev pub sent_byte : ℕ
sent_byte = 17

abbrev pub read_byte : ℕ
read_byte = 18

abbrev pub clock_reads : List ℕ
clock_reads = 65534 ∷ (3 ∷ (9 ∷ []))

abbrev pub period_ticks : ℕ
period_ticks = 1500
