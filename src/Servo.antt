-- ===== src/Servo.antt =====
-- rm32/src/servo.rs: the servo pulse input, its rate limit and its stick calibration. `process_
-- calibration` returns through several exits, each of which is a record of the fields it has written;
-- u8 counters and u16 thresholds wrap.
pub mod Slew
pub mod Calibration
use rm.Prelude.{
  ℕ, ◌+◌, ◌*◌, ◌/◌, Bool, true, false, not, ◌||◌, ltb, leb, ◌==◌, if◌then◌else◌, u8, u16, u32,
  sub16, shr,
}
use rm.Prelude.Int.{ℤ, pos, ◌+ℤ◌, ◌-ℤ◌, ltb_ℤ, leb_ℤ, as_u16, i32}
use rm.Arith.Map.{map, get_abs_dif}

pub record ServoState : Type 0 where
  pub low_threshold : ℕ
  pub high_threshold : ℕ
  pub neutral : ℕ
  pub dead_band : ℕ
  pub max_deviation : ℕ
  pub raw_input : ℤ
  pub calibration_required : Bool
  pub high_calibration_set : Bool
  pub high_calibration_counts : ℕ
  pub low_calibration_counts : ℕ
  pub last_high_threshold : ℕ

unfoldable pub init : ServoState
init = record {
  low_threshold = 1100;
  high_threshold = 1900;
  neutral = 1500;
  dead_band = 100;
  max_deviation = 250;
  raw_input = pos 0;
  calibration_required = false;
  high_calibration_set = false;
  high_calibration_counts = 0;
  low_calibration_counts = 0;
  last_high_threshold = 0;
}

unfoldable pub set_calibration : ServoState → ℕ → ℕ → ℕ → ℕ → ServoState
set_calibration s low high neutral dead_band = record s {
  low_threshold = low;
  high_threshold = high;
  neutral = neutral;
  dead_band = dead_band;
}

pub data ServoResult : Type 0 where
  throttle : ℕ → ServoResult
  out_of_range : ServoResult
  calibrating : ServoResult
  calibration_high_done : ServoResult
  calibration_done : ℕ → ℕ → ServoResult

-- `rate_limit`, on its target.
unfoldable pub rate_limit : ServoState → ℕ → ℕ
rate_limit s current =
    let target = s.raw_input in
    let cur = pos current in
    let max_dev = pos s.max_deviation in
    if ltb_ℤ max_dev (i32 (target -ℤ cur))
    then as_u16 (i32 (cur +ℤ max_dev))
    else if ltb_ℤ max_dev (i32 (cur -ℤ target))
    then as_u16 (i32 (cur -ℤ max_dev))
    else as_u16 target

-- The mapping of a pulse in normal operation.
unfoldable pub raw_of : ServoState → ℕ → Bool → ℤ
raw_of s pulse_width bidirectional =
    let raw =
      map (pos pulse_width) (pos s.low_threshold) (pos s.high_threshold) (pos 47) (pos 2047) in
    if bidirectional
    then if leb pulse_width s.neutral
      then map (pos pulse_width) (pos s.low_threshold) (pos s.neutral) (pos 0) (pos 1000)
      else map (pos pulse_width) (pos (s.neutral + 1)) (pos s.high_threshold) (pos 1001) (pos 2000)
    else if leb_ℤ raw (pos 48)
    then pos 0
    else raw

-- The average `(7 * threshold + pulse) >> 3`.
abbrev pub averaged : ℕ → ℕ → ℕ
averaged threshold pulse = u16 (shr (u32 (7 * threshold + pulse)) 3)

-- The first half of `process_calibration`.
unfoldable pub calibrate_high : ServoState → ℕ → ServoState × ServoResult
calibrate_high s pulse_width =
    let last = if s.high_calibration_counts == 0 then pulse_width else s.last_high_threshold in
    let counts = u8 (s.high_calibration_counts + 1) in
    let high = averaged s.high_threshold pulse_width in
    let t = record s { last_high_threshold = last; high_calibration_counts = counts } in
    if ltb 50 (get_abs_dif (pos last) (pos s.high_threshold))
    then (record t { calibration_required = false }, calibrating)
    else if ltb 50 counts
    then (
      record t {
        high_threshold = sub16 high 25;
        high_calibration_set = true;
        last_high_threshold = sub16 high 25;
      },
      calibration_high_done,
    )
    else (record t { high_threshold = high; last_high_threshold = high }, calibrating)

-- The second half.
unfoldable pub calibrate_low : ServoState → ℕ → ServoState × ServoResult
calibrate_low s pulse_width =
    let counts =
      if ltb pulse_width 1250
      then u8 (s.low_calibration_counts + 1)
      else s.low_calibration_counts in
    let low =
      if ltb pulse_width 1250 then averaged s.low_threshold pulse_width else s.low_threshold in
    let final = u16 (low + 25) in
    if ltb 75 counts
    then (
      record s { low_threshold = final; calibration_required = false; low_calibration_counts = 0 },
      calibration_done (u8 (sub16 final 750 / 2)) (u8 (sub16 s.high_threshold 1750 / 2)),
    )
    else (record s { low_threshold = low; low_calibration_counts = counts }, calibrating)

unfoldable pub process_calibration : ServoState → ℕ → ServoState × ServoResult
process_calibration s pulse_width =
    if s.high_calibration_set then calibrate_low s pulse_width else calibrate_high s pulse_width

unfoldable pub compute : ServoState → ℕ → ℕ → Bool → ServoState × ServoResult
compute s pulse_width current_newinput bidirectional =
    let t = record s { raw_input = raw_of s pulse_width bidirectional } in
    if leb pulse_width 800 || leb 2200 pulse_width
    then (s, out_of_range)
    else if s.calibration_required
    then process_calibration s pulse_width
    else (t, throttle (rate_limit t current_newinput))
