-- ===== src/Main/State.antt =====
-- `MainState` of rm32/src/main_state.rs with the parts it owns, and what a tick reads and sends.
use rm.Prelude.{ℕ, Bool, false, ◌&&◌, Option, none, some, List, replicate, ltb, if◌then◌else◌}
use rm.Prelude.Int.{ℤ, pos}
use rm.Platform.{Platform}
use rm.Config.{Config, size, field}
use rm.Config.At
use rm.Config.Derived.{MotorConfig}
use rm.Motor.Pids
use rm.Motor.Pids.{PidState}
use rm.Input.{ProtectionState}
use rm.Measure.Current.{CurrentFilter, new_filter}
use rm.Measure.Filter.{EwmaPow2, new_ewma}
use rm.Shared.State.{SharedState}
use rm.Main.Formulas.{reverse_speed_threshold}

pub record Measurements : Type 0 where
  pub battery_voltage : ℕ
  pub actual_current : ℤ
  pub degrees_celsius : ℤ
  pub consumed_charge : ℕ
  pub voltage_filter : EwmaPow2
  pub current_filter : CurrentFilter

pub record TimingState : Type 0 where
  pub average_interval : ℕ
  pub last_average_interval : ℕ
  pub e_rpm : ℕ

pub record MainState : Type 0 where
  pub protection : ProtectionState
  pub measurements : Measurements
  pub config : Config
  pub pid : PidState
  pub timing : TimingState
  pub voltage_divider_x100 : ℕ
  pub millivolt_per_amp : ℕ
  pub current_offset : ℤ
  pub use_ntc : Bool
  pub cpu_mhz : ℕ
  pub cell_count : ℕ
  pub motor_kv : ℕ
  pub reverse_speed : ℕ
  pub minimum_duty : ℕ
  pub target_min_bemf_counts : ℕ
  pub low_cell_volt_cutoff : ℕ
  pub desync_check : Bool
  pub desync_checks_after_polling : ℕ
  pub polling_mode_seen : Bool
  pub last_armed : Bool
  pub just_armed : Bool
  pub needs_reset : Bool
  pub led_phase : ℕ
  pub timer1_max_arr : ℕ
  pub last_control_tick : Option ℕ

-- The constants of the board and the chip that the constructor takes.
pub record BoardParams : Type 0 where
  pub board_voltage_divider : ℕ
  pub board_millivolt_per_amp : ℕ
  pub board_current_offset : ℤ
  pub board_use_ntc : Bool
  pub board_min_bemf_counts : ℕ
  pub board_stall_interval : ℕ
  pub chip_max_arr : ℕ
  pub chip_cpu_mhz : ℕ

unfoldable pub default_measurements : Measurements
unfolding new_filter new_ewma
default_measurements = record {
  battery_voltage = 0;
  actual_current = pos 0;
  degrees_celsius = pos 0;
  consumed_charge = 0;
  voltage_filter = new_ewma;
  current_filter = new_filter;
}

unfoldable pub default_protection : ProtectionState
default_protection = record {
  bemf_timeout_happened = 0;
  bemf_timeout = 10;
  low_voltage_count = 0;
  low_voltage_cutoff = false;
}

-- `none` is the failed assertion on the back-EMF counts. The default configuration is all zero.
unfoldable pub new_with_led : Platform → BoardParams → Option MainState
unfolding default_protection default_measurements
new_with_led p b =
    if ltb 127 b.board_min_bemf_counts
    then none
    else some record {
      protection = default_protection;
      measurements = default_measurements;
      config = replicate size 0;
      pid = Pids.with_stall_target b.board_stall_interval;
      timing = record { average_interval = 0; last_average_interval = 0; e_rpm = 0 };
      voltage_divider_x100 = b.board_voltage_divider;
      millivolt_per_amp = b.board_millivolt_per_amp;
      current_offset = b.board_current_offset;
      use_ntc = b.board_use_ntc;
      cpu_mhz = b.chip_cpu_mhz;
      cell_count = 0;
      motor_kv = 2000;
      reverse_speed = reverse_speed_threshold p 2000;
      minimum_duty = 0;
      target_min_bemf_counts = b.board_min_bemf_counts;
      low_cell_volt_cutoff = 330;
      desync_check = false;
      desync_checks_after_polling = 0;
      polling_mode_seen = false;
      last_armed = false;
      just_armed = false;
      needs_reset = false;
      led_phase = 0;
      timer1_max_arr = b.chip_max_arr;
      last_control_tick = none;
    }

unfoldable pub set_motor_kv : Platform → MainState → ℕ → MainState
set_motor_kv p m v = record m { motor_kv = v; reverse_speed = reverse_speed_threshold p v }

unfoldable pub apply_motor_config : Platform → MainState → MotorConfig → MainState
apply_motor_config p m motor_cfg =
    let gains =
      Pids.set_current_gains m.pid motor_cfg.current_kp motor_cfg.current_ki motor_cfg.current_kd in
    let limit = field m.config At.current_limit in
    record (set_motor_kv p m motor_cfg.motor_kv) {
      minimum_duty = motor_cfg.minimum_duty;
      low_cell_volt_cutoff = motor_cfg.low_cell_volt_cutoff;
      timer1_max_arr = motor_cfg.timer1_max_arr;
      pid = Pids.set_use_current_limit gains (ltb 0 limit && ltb limit 100);
    }

-- The state of a tick: the main state, the shared cells, the packets sent, and the LED pin.
pub record Loop : Type 0 where
  pub main : MainState
  pub shared : SharedState
  pub sent : List (List ℕ)
  pub led : Bool

-- The readings of the ADC, with the port's conversion of its temperature sensor.
pub record AdcReads : Type 0 where
  pub raw_voltage : ℕ
  pub raw_current : ℕ
  pub raw_temperature : ℕ
  pub calc_temperature : ℕ → ℤ

-- What the tick reads once at its head and uses throughout.
pub record Snapshot : Type 0 where
  pub e_com : ℤ
  pub zc : ℕ
  pub raw_input : ℕ
