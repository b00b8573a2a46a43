-- ===== src/Examples/Motors.antt =====
-- Shared cells, motors and main loops for the concrete runs.
use rm.Prelude.{List, ℕ, ◌++◌, ◌∷◌, [], Bool, true, false, some, replicate}
use rm.Prelude.Int.{pos}
use rm.Control.Tick.Quiet.{Interval}
use rm.Shared.Action.{no_action, commutate_kick, all_off}
use rm.Motor.Mode.{MotorMode}
use rm.Shared.Queue.{Queue}
use rm.Shared.State.{SharedState}
use rm.Shared.Queue.Steps.{System, waiting, loaded_tail}
use rm.Control.Motor.{MotorContext, Readings}
use rm.Control.Comparator.{GateReads}
use rm.Measure.Current.{CurrentFilter}
use rm.Measure.Filter.{FixedPoint, EwmaPow2}
use rm.Telemetry.Edt.{EdtScheduler}
use rm.Main.State.{MainState, Loop, AdcReads}
use rm.Examples.Data.{blank, wheel, sensing, duty, protection, limiter}
use rm.Prelude.{◌*◌, ◌/◌}

abbrev pub two_writes : Queue
two_writes = record {
  slots = 0 ∷ 0 ∷ 0 ∷ 0 ∷ 0 ∷ 0 ∷ 0 ∷ 2600 ∷ 5121 ∷ [];
  head = 0;
  tail = 7;
  overflow = false;
}

abbrev pub idle_cells : SharedState
idle_cells = record {
  motor_mode = MotorMode.disarmed;
  input_set = true;
  send_telemetry = false;
  dshot = true;
  servo_pwm = false;
  dshot_telemetry = false;
  save_settings_flag = false;
  tone_request = 0;
  tone_active = false;
  send_esc_info_flag = false;
  pending_servo_calibration = false;
  pending_servo_low_threshold = 0;
  pending_servo_high_threshold = 0;
  config_write = two_writes;
  control_ticks = 900;
  zero_crosses = 0;
  commutation_interval = 12500;
  newinput = 0;
  adjusted_input = 0;
  duty_cycle_setpoint = 0;
  duty_cycle = 0;
  forward = true;
  signal_timeout = 3;
  zero_input_count = 0;
  e_com_time = 0;
  gate_avg = 0;
  interval_timer_count = 700;
  stall_protection_adjust = 0;
  current_limit_adjust = 2000;
  actual_current = 40;
  battery_voltage = 1480;
  degrees_celsius = 31;
  tim1_arr = 1999;
  duty_maximum = 2000;
  filter_level = 5;
  min_bemf_counts = 2;
  auto_advance = 16;
  prop_brake_active = false;
  isr_action_cell = 0;
  duty_kick_down = false;
  changeover_step = 0;
  desync_check_pending = false;
  one_khz_counter = 20;
  telem_counter = 0;
}

abbrev pub steady_cells : SharedState
steady_cells = record idle_cells {
  motor_mode = MotorMode.running;
  newinput = 900;
  adjusted_input = 900;
  zero_crosses = 5000;
  commutation_interval = 480;
  e_com_time = 1440;
  gate_avg = 480;
  duty_kick_down = true;
}

abbrev pub spinning : MotorContext
spinning = record {
  shared = steady_cells;
  commutation = wheel;
  bemf = sensing;
  duty = duty;
  armed_timeout_count = 0;
  calls = [];
}

abbrev pub resting : MotorContext
resting = record spinning { shared = record idle_cells { isr_action_cell = 2; newinput = 1200 } }

abbrev pub parked_motor : MotorContext
parked_motor = record spinning { shared = record idle_cells { motor_mode = MotorMode.armed } }

abbrev pub tick_reads : Readings
tick_reads = record {
  count_at_entry = 210;
  count_at_poll = 211;
  count_at_exit = 214;
  comp_level = true;
}

abbrev pub unplugged : MotorContext
unplugged = record spinning {
  shared = record idle_cells { input_set = false; adjusted_input = 0; tone_request = 2 };
  armed_timeout_count = 60000;
}

-- A commutation request, a full throttle, and a kill, one before each tick.
abbrev pub disturbances : List Interval
disturbances =
    record { adjusted_input = 0; requested = commutate_kick; readings = tick_reads }
    ∷ record { adjusted_input = 2047; requested = no_action; readings = tick_reads }
    ∷ record { adjusted_input = 300; requested = all_off; readings = tick_reads }
    ∷ []

abbrev pub late_edge : GateReads
late_edge = record { pending = true; count = 241; level = true; level_after_clear = true }

abbrev pub steady_level : ℕ → Bool
steady_level k = false

abbrev pub window : CurrentFilter
window = record { readings = replicate 50 0; index = 49; total = 0 }

abbrev pub fixed_point : FixedPoint
fixed_point = record { from_num = λ n. n * 65536; to_num = λ bits. bits / 65536 }

abbrev pub filtered : EwmaPow2
filtered = record { bits = 98304000; initialized = true }

abbrev pub sensor_readings : AdcReads
sensor_readings = record {
  raw_voltage = 1500;
  raw_current = 40;
  raw_temperature = 1700;
  calc_temperature = λ raw. pos 31;
}

abbrev pub main_of : MainState
main_of = record {
  protection = protection;
  measurements = record {
    battery_voltage = 1480;
    actual_current = pos 40;
    degrees_celsius = pos 31;
    consumed_charge = 7200000;
    voltage_filter = filtered;
    current_filter = window;
  };
  config = blank;
  pid = limiter;
  timing = record { average_interval = 480; last_average_interval = 470; e_rpm = 416 };
  voltage_divider_x100 = 1100;
  millivolt_per_amp = 20;
  current_offset = pos 0;
  use_ntc = true;
  cpu_mhz = 64;
  cell_count = 4;
  motor_kv = 2000;
  reverse_speed = 685;
  minimum_duty = 50;
  target_min_bemf_counts = 2;
  low_cell_volt_cutoff = 330;
  desync_check = true;
  desync_checks_after_polling = 0;
  polling_mode_seen = false;
  last_armed = true;
  just_armed = false;
  needs_reset = false;
  led_phase = 100;
  timer1_max_arr = 1999;
  last_control_tick = some 880;
}

abbrev pub flying : Loop
flying = record { main = main_of; shared = steady_cells; sent = []; led = false }

abbrev pub silent_flight : Loop
silent_flight = record flying { shared = record steady_cells { signal_timeout = 10001 } }

abbrev pub sagging : Loop
sagging = record flying {
  main = record main_of {
    config = replicate 36 0 ++ 1 ∷ [];
    measurements = record main_of.measurements { battery_voltage = 1100 };
  };
}

abbrev pub wrapped_sag : Loop
wrapped_sag = record sagging {
  main = record sagging.main {
    protection = record protection { low_voltage_count = 65535; low_voltage_cutoff = true };
  };
}

abbrev pub pushed_once : Queue
pushed_once = record { slots = 2600 ∷ replicate 8 0; head = 1; tail = 0; overflow = false }

abbrev pub mid_pop : System
mid_pop = record {
  queue = pushed_once;
  producer = waiting;
  consumer = loaded_tail 0;
  sent = 2600 ∷ [];
  received = [];
}

abbrev pub edt : EdtScheduler
edt = record {
  counter = 39;
  last_sent_extended = false;
  active = true;
  send_init = false;
  send_deinit = false;
}
