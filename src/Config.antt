-- ===== src/Config.antt =====
-- rm32/src/config.rs: the 192 bytes of the EEPROM configuration. The struct is `repr(C)` and all its
-- fields are bytes or arrays of bytes, so it is modelled by its byte view, which the programming
-- commands index, and a field is the byte at its offset.
pub mod At
pub mod Fields
pub mod Derived
use rm.Prelude.{
  ℕ, ◌+◌, ◌-◌, ◌*◌, ◌/◌, Bool, true, false, ◌&&◌, ◌||◌, List, [], ◌∷◌, ltb, leb, ◌==◌, ◌!=◌,
  if◌then◌else◌, u8, u16, u32, shr, get_or, set, replicate, max, min_of,
}

abbrev pub Config : Type 0
Config = List ℕ

abbrev pub size : ℕ
size = 192

abbrev pub field : Config → ℕ → ℕ
field c offset = get_or c offset 0

abbrev pub eeprom_version_now : ℕ
eeprom_version_now = 3

unfoldable pub is_valid : Config → Bool
is_valid c = leb (field c At.eeprom_version) eeprom_version_now

unfoldable pub is_bidirectional : Config → Bool
is_bidirectional c = field c At.bi_direction != 0

unfoldable pub is_rc_car_reverse : Config → Bool
is_rc_car_reverse c = field c At.rc_car_reverse != 0

unfoldable pub temp_advance : Config → ℕ
temp_advance c =
    let advance = field c At.advance_level in
    if leb advance 3
    then u8 (advance * 8)
    else if leb 10 advance && leb advance 42
    then advance - 10
    else 16

-- The assignments of `apply_version_defaults` for a version before the current one.
servo_defaults : Config → Config
servo_defaults c =
    if field c At.servo_low_threshold == 0
      && field c At.servo_high_threshold == 0
      && field c At.servo_neutral == 0
      && field c At.servo_dead_band == 0
    then set
        (set (set (set c At.servo_low_threshold 128) At.servo_high_threshold 128) At.servo_neutral
          128)
        At.servo_dead_band 50
    else c

migrated : Config → Config
migrated c =
    set
      (set
        (set
          (set
            (set
              (set
                (set
                  (set
                    (set
                      (set (set (set c At.max_ramp 160) At.minimum_duty_cycle 1)
                        At.disable_stick_calibration 0)
                      At.absolute_voltage_cutoff 10)
                    At.current_p 100)
                  At.current_i 0)
                At.current_d 100)
              At.active_brake_power 0)
            13 0)
          14 0)
        15 0)
      16 0

unfoldable pub apply_version_defaults : Config → Config
unfolding servo_defaults migrated
apply_version_defaults c =
    let d =
      if ltb (field c At.eeprom_version) eeprom_version_now
      then servo_defaults (migrated c)
      else c in
    set d At.eeprom_version eeprom_version_now

unfoldable pub apply_rc_car_overrides : Config → Config
apply_rc_car_overrides c =
    if field c At.rc_car_reverse == 0
    then c
    else set
        (set (set (set (set c At.stuck_rotor_protection 0) At.bi_direction 1) At.use_sine_start 0)
          At.variable_pwm 0)
        At.comp_pwm 0

unfoldable pub apply_comp_pwm_guard : Config → Config
apply_comp_pwm_guard c = if field c At.comp_pwm == 0 then set c At.use_sine_start 0 else c

unfoldable pub normalize_after_load : Config → Config
normalize_after_load c = apply_comp_pwm_guard (apply_rc_car_overrides c)
