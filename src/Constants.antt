-- ===== src/Constants.antt =====
-- rm32/src/constants.rs: the constants that the models use, and the durations of `Timing` as counts
-- of a port's clocks.
use rm.Prelude.{ℕ, ◌+◌, ◌-◌, ◌*◌, u8, u16, u32}
use rm.Platform.{Platform, us_to_ticks, ms_to_control_ticks}

abbrev pub dshot_max_throttle : ℕ
dshot_max_throttle = 2047

abbrev pub throttle_min_signal : ℕ
throttle_min_signal = 47

abbrev pub duty_scale_max : ℕ
duty_scale_max = 2000

abbrev pub servo_center : ℕ
servo_center = 1000

abbrev pub bidir_midpoint : ℕ
bidir_midpoint = 1048

abbrev pub bidir_confirm_frames : ℕ
bidir_confirm_frames = 4

abbrev pub bidir_idle_high_frames : ℕ
bidir_idle_high_frames = 100

abbrev pub bemf_fault_latched : ℕ
bemf_fault_latched = 102

abbrev pub startup_zc_base : ℕ
startup_zc_base = 30

abbrev pub advance_shift : ℕ
advance_shift = 6

abbrev pub sine_slow_step_throttle : ℕ
sine_slow_step_throttle = 137

abbrev pub dshot_bidir_brake_limit : ℕ
dshot_bidir_brake_limit = 1047

abbrev pub calibration_entry_count : ℕ
calibration_entry_count = 50

abbrev pub calibration_min_throttle : ℕ
calibration_min_throttle = 1500

abbrev pub calibration_max_jitter : ℕ
calibration_max_jitter = 50

abbrev pub ramp_voltage_low_cv : ℕ
ramp_voltage_low_cv = 800

abbrev pub ramp_voltage_high_cv : ℕ
ramp_voltage_high_cv = 2200

abbrev pub ramp_voltage_change_max : ℕ
ramp_voltage_change_max = 10

abbrev pub ramp_voltage_change_min : ℕ
ramp_voltage_change_min = 1

abbrev pub ramp_startup_threshold : ℕ
ramp_startup_threshold = 150

abbrev pub ramp_fast_commutation_threshold : Platform → ℕ
ramp_fast_commutation_threshold p = us_to_ticks p 100

abbrev pub ramp_low_rpm_interval : Platform → ℕ
ramp_low_rpm_interval p = us_to_ticks p 250

abbrev pub min_zc_for_advance : ℕ
min_zc_for_advance = 5

abbrev pub old_routine_exit_zc : ℕ
old_routine_exit_zc = 20

abbrev pub sine_entry_throttle : ℕ
sine_entry_throttle = 127

abbrev pub sine_changeover_throttle : ℕ
sine_changeover_throttle = 200

abbrev pub bemf_lenient_throttle : ℕ
bemf_lenient_throttle = 150

abbrev pub bemf_timeout_lenient : ℕ
bemf_timeout_lenient = 100

abbrev pub bemf_timeout_strict : ℕ
bemf_timeout_strict = 10

abbrev pub sine_bemf_clear_throttle : ℕ
sine_bemf_clear_throttle = 160

abbrev pub lvc_normal_threshold : ℕ
lvc_normal_threshold = 10000

abbrev pub lvc_startup_threshold : ℕ
lvc_startup_threshold = 100

abbrev pub led_high_throttle : ℕ
led_high_throttle = 1947

abbrev pub telemetry_interval_ms : ℕ
telemetry_interval_ms = 30

abbrev pub initial_commutation_interval : Platform → ℕ
initial_commutation_interval p = us_to_ticks p 6250

abbrev pub startup_commutation_interval : Platform → ℕ
startup_commutation_interval p = us_to_ticks p 5000

abbrev pub old_routine_exit_interval : Platform → ℕ
old_routine_exit_interval p = us_to_ticks p 1000

abbrev pub old_routine_reentry_margin : Platform → ℕ
old_routine_reentry_margin p = us_to_ticks p 250

abbrev pub desync_reset_interval : Platform → ℕ
desync_reset_interval p = us_to_ticks p 2500

abbrev pub desync_max_interval : Platform → ℕ
desync_max_interval p = us_to_ticks p 1000

abbrev pub desync_stop_interval : Platform → ℕ
desync_stop_interval p = us_to_ticks p 500

abbrev pub bemf_stall_timer_threshold : Platform → ℕ
bemf_stall_timer_threshold p = us_to_ticks p 22500

abbrev pub filter_slow_interval : Platform → ℕ
filter_slow_interval p = us_to_ticks p 250

abbrev pub filter_fast_interval : Platform → ℕ
filter_fast_interval p = us_to_ticks p 25

abbrev pub variable_pwm2_lo : Platform → ℕ
variable_pwm2_lo p = us_to_ticks p 50

abbrev pub variable_pwm2_hi : Platform → ℕ
variable_pwm2_hi p = us_to_ticks p 125

abbrev pub arming_timeout_ticks : Platform → ℕ
arming_timeout_ticks p = ms_to_control_ticks p 1000

abbrev pub signal_timeout_disarm : Platform → ℕ
signal_timeout_disarm p = ms_to_control_ticks p 500

abbrev pub pid_loop_divider : Platform → ℕ
pid_loop_divider p = u8 (ms_to_control_ticks p 1)

abbrev pub control_ticks_per_ms : Platform → ℕ
control_ticks_per_ms p = u16 (ms_to_control_ticks p 1)

abbrev pub signal_timeout_unarmed : Platform → ℕ
signal_timeout_unarmed p = u32 (signal_timeout_disarm p * 4)

abbrev pub led_blink_half_period : Platform → ℕ
led_blink_half_period p = u16 (ms_to_control_ticks p 100)

unfoldable pub telemetry_interval_ticks : Platform → ℕ → ℕ
telemetry_interval_ticks p config_interval =
    u16 ((telemetry_interval_ms - 1 + config_interval) * control_ticks_per_ms p)
