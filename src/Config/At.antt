-- ===== src/Config/At.antt =====
-- The offsets of the fields of `EepromConfig` in rm32/src/config.rs.
use rm.Prelude.{ℕ}

abbrev pub eeprom_version : ℕ
eeprom_version = 1

abbrev pub max_ramp : ℕ
max_ramp = 5

abbrev pub minimum_duty_cycle : ℕ
minimum_duty_cycle = 6

abbrev pub disable_stick_calibration : ℕ
disable_stick_calibration = 7

abbrev pub absolute_voltage_cutoff : ℕ
absolute_voltage_cutoff = 8

abbrev pub current_p : ℕ
current_p = 9

abbrev pub current_i : ℕ
current_i = 10

abbrev pub current_d : ℕ
current_d = 11

abbrev pub active_brake_power : ℕ
active_brake_power = 12

abbrev pub reserved_eeprom_3 : ℕ
reserved_eeprom_3 = 13

abbrev pub dir_reversed : ℕ
dir_reversed = 17

abbrev pub bi_direction : ℕ
bi_direction = 18

abbrev pub use_sine_start : ℕ
use_sine_start = 19

abbrev pub comp_pwm : ℕ
comp_pwm = 20

abbrev pub variable_pwm : ℕ
variable_pwm = 21

abbrev pub stuck_rotor_protection : ℕ
stuck_rotor_protection = 22

abbrev pub advance_level : ℕ
advance_level = 23

abbrev pub pwm_frequency : ℕ
pwm_frequency = 24

abbrev pub startup_power : ℕ
startup_power = 25

abbrev pub motor_kv : ℕ
motor_kv = 26

abbrev pub servo_low_threshold : ℕ
servo_low_threshold = 32

abbrev pub servo_high_threshold : ℕ
servo_high_threshold = 33

abbrev pub servo_neutral : ℕ
servo_neutral = 34

abbrev pub servo_dead_band : ℕ
servo_dead_band = 35

abbrev pub low_cell_volt_cutoff : ℕ
low_cell_volt_cutoff = 37

abbrev pub rc_car_reverse : ℕ
rc_car_reverse = 38

abbrev pub sine_mode_changeover_throttle_level : ℕ
sine_mode_changeover_throttle_level = 40

abbrev pub driving_brake_strength : ℕ
driving_brake_strength = 42

abbrev pub brake_on_stop : ℕ
brake_on_stop = 28

abbrev pub motor_poles : ℕ
motor_poles = 27

abbrev pub stall_protection : ℕ
stall_protection = 29

abbrev pub beep_volume : ℕ
beep_volume = 30

abbrev pub telemetry_on_interval : ℕ
telemetry_on_interval = 31

abbrev pub low_voltage_cut_off : ℕ
low_voltage_cut_off = 36

abbrev pub drag_brake_strength : ℕ
drag_brake_strength = 41

abbrev pub temperature_limit : ℕ
temperature_limit = 43

abbrev pub current_limit : ℕ
current_limit = 44

abbrev pub auto_advance : ℕ
auto_advance = 47
