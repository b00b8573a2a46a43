-- ===== src/Input/Mapping.antt =====
-- rm32/src/input_mapping.rs: the input mode, the four bidirectional mappings and the sine start map.
-- The u16 sums wrap; a subtraction that the branch keeps from wrapping is the one of ℕ. The last
-- argument of the servo maps, `dead_band`, is doubled by a shift.
use rm.Prelude.{
  ℕ, ◌+◌, ◌-◌, ◌*◌, Bool, true, false, not, ◌&&◌, ◌||◌, bool_eq, ltb, if◌then◌else◌, u16,
}
use rm.Prelude.Int.{pos, as_u16}
use rm.Arith.Map.{map}
use rm.Config.{Config, field, is_bidirectional, is_rc_car_reverse}
use rm.Config.At
use rm.Constants.{
  dshot_max_throttle, throttle_min_signal, servo_center, bidir_midpoint, dshot_bidir_brake_limit,
}

pub data ReverseMode : Type 0 where
  speed_gated rc_car : ReverseMode

pub data InputMode : Type 0 where
  unidirectional : InputMode
  bidir_dshot : ReverseMode → InputMode
  bidir_servo : ReverseMode → ℕ → InputMode

unfoldable pub is_rc_car : InputMode → Bool
is_rc_car (bidir_dshot rc_car) = true
is_rc_car (bidir_servo rc_car dead_band) = true
is_rc_car _ = false

unfoldable pub from_config : Config → Bool → InputMode
from_config c is_dshot =
    let mode = if is_rc_car_reverse c then rc_car else speed_gated in
    if not (is_bidirectional c)
    then unidirectional
    else if is_dshot
    then bidir_dshot mode
    else bidir_servo mode (field c At.servo_dead_band)

pub record BidirResult : Type 0 where
  pub adjusted : ℕ
  pub reverse : Bool
  pub prop_brake : Bool

abbrev pub result : ℕ → Bool → Bool → BidirResult
result a r b = record { adjusted = a; reverse = r; prop_brake = b }

-- `((newinput.saturating_sub(base)) * 2 + THROTTLE_MIN_SIGNAL).saturating_sub(1)` of the DShot maps.
abbrev pub dshot_throttle : ℕ → ℕ → ℕ
dshot_throttle newinput base = u16 ((newinput - base) * 2 + throttle_min_signal) - 1

-- `can_reverse` of the two speed-gated maps.
unfoldable pub can_reverse : ℕ → ℕ → Bool → ℕ → Bool
can_reverse interval duty sine threshold = (ltb threshold interval && ltb duty 200) || sine

-- A speed-gated half of the range: the throttle in the wanted direction, a reversal where it is
-- allowed, and nothing where it is not.
abbrev pub gated_half : Bool → Bool → ℕ → BidirResult
gated_half opposite allowed throttle =
    if not opposite
    then result throttle false false
    else if allowed
    then result throttle true false
    else result 0 false false

-- An RC-car half of the range: in the opposite direction it brakes until the stick has been in the
-- centre, and in the running one it gives the throttle unless the brake holds.
abbrev pub rc_half : Bool → Bool → Bool → ℕ → BidirResult
rc_half opposite braking centred throttle =
    if opposite
    then if centred then result throttle true false else result 0 false true
    else if braking
    then result 0 false true
    else result throttle false false

unfoldable pub dshot_bidir : ℕ → Bool → Bool → ℕ → ℕ → Bool → ℕ → BidirResult
unfolding can_reverse
dshot_bidir newinput forward dir_reversed interval duty sine threshold =
    let allowed = can_reverse interval duty sine threshold in
    if ltb dshot_bidir_brake_limit newinput
    then gated_half (bool_eq forward dir_reversed) allowed (dshot_throttle newinput bidir_midpoint)
    else if ltb throttle_min_signal newinput
    then gated_half (not (bool_eq forward dir_reversed)) allowed
        (dshot_throttle newinput (throttle_min_signal + 1))
    else result 0 false false

unfoldable pub dshot_rc_car : ℕ → Bool → Bool → Bool → Bool → BidirResult
dshot_rc_car newinput forward dir_reversed braking centred =
    if ltb dshot_bidir_brake_limit newinput
    then rc_half (bool_eq forward dir_reversed) braking centred
        (dshot_throttle newinput bidir_midpoint)
    else if ltb throttle_min_signal newinput
    then rc_half (not (bool_eq forward dir_reversed)) braking centred
        (dshot_throttle newinput (throttle_min_signal + 1))
    else result 0 false false

-- `dead_band << 1`, the two ends of the dead band, and the throttle of each half.
abbrev pub db2 : ℕ → ℕ
db2 dead_band = u16 (dead_band * 2)

abbrev pub above_center : ℕ → ℕ
above_center dead_band = u16 (servo_center + db2 dead_band)

unfoldable pub servo_forward : ℕ → ℕ → ℕ
servo_forward newinput dead_band = as_u16 (
    map (pos newinput) (pos (above_center dead_band)) (pos 2000) (pos throttle_min_signal)
      (pos dshot_max_throttle))

unfoldable pub servo_reverse : ℕ → ℕ → ℕ
servo_reverse newinput dead_band = as_u16 (
    map (pos newinput) (pos 0) (pos (servo_center - db2 dead_band)) (pos dshot_max_throttle)
      (pos throttle_min_signal))

unfoldable pub servo_bidir : ℕ → Bool → Bool → ℕ → ℕ → Bool → ℕ → ℕ → BidirResult
servo_bidir newinput forward dir_reversed interval duty sine threshold dead_band =
    let allowed = can_reverse interval duty sine threshold in
    if ltb (above_center dead_band) newinput
    then gated_half (bool_eq forward dir_reversed) allowed (servo_forward newinput dead_band)
    else if ltb newinput (servo_center - db2 dead_band)
    then gated_half (not (bool_eq forward dir_reversed)) allowed (servo_reverse newinput dead_band)
    else result 0 false false

unfoldable pub servo_rc_car : ℕ → Bool → Bool → Bool → Bool → ℕ → BidirResult
servo_rc_car newinput forward dir_reversed braking centred dead_band =
    if ltb (above_center dead_band) newinput
    then rc_half (bool_eq forward dir_reversed) braking centred (servo_forward newinput dead_band)
    else if ltb newinput (servo_center - db2 dead_band)
    then rc_half (not (bool_eq forward dir_reversed)) braking centred
        (servo_reverse newinput dead_band)
    else result 0 false false

abbrev pub sine_dead_band : ℕ
sine_dead_band = 30

abbrev pub sine_mid_throttle : ℕ
sine_mid_throttle = 160

unfoldable pub sine_start_map : ℕ → ℕ → ℕ
sine_start_map adjusted changeover_level =
    let changeover = changeover_level * 20 in
    if ltb adjusted 30
    then 0
    else if ltb adjusted changeover
    then as_u16 (
        map (pos adjusted) (pos sine_dead_band) (pos changeover) (pos throttle_min_signal)
          (pos sine_mid_throttle))
    else as_u16 (
        map (pos adjusted) (pos changeover) (pos dshot_max_throttle) (pos sine_mid_throttle)
          (pos dshot_max_throttle))
