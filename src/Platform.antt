-- ===== src/Platform.antt =====
-- rm32/src/platform.rs: the clock facts of a port, the ranges that `validate` asserts, and the
-- conversions between timer counts and microseconds. A port is a value of the record, and u64
-- intermediate results are exact, since no product here reaches 2 ^ 64 for u32 arguments.
use rm.Prelude.{ℕ, ◌+◌, ◌*◌, ◌/◌, ◌%◌, ◌≤◌, ◌<◌, ◌≡◌, ◌==◌, if◌then◌else◌, u32, min_of}
use rm.Prelude.Int.{ℤ, pos, negsuc, sub_ℕ, signed32, quot, i32}
use rm.Arith.Fast.{div3_i32}

pub record Platform : Type 0 where
  pub tick_hz : ℕ
  pub timer_hz : ℕ
  pub capture_hz : ℕ
  pub gcr_shift : ℕ
  pub pwm_base_period : ℕ

-- The assertions of `validate`.
pub record IsValid (p : Platform) : Type 0 where
  pub tick_low : 1000 ≤ p.tick_hz
  pub tick_high : p.tick_hz ≤ 230000
  pub tick_whole : p.tick_hz % 1000 ≡ 0
  pub timer_low : 1000000 ≤ p.timer_hz
  pub timer_high : p.timer_hz ≤ 2000000
  pub capture_low : 1000000 ≤ p.capture_hz
  pub capture_high : p.capture_hz ≤ 255000000
  pub capture_whole : p.capture_hz % 1000000 ≡ 0
  pub shift_high : p.gcr_shift < 16
  pub period_low : 0 < p.pwm_base_period

unfoldable pub us_to_ticks : Platform → ℕ → ℕ
us_to_ticks p us = u32 (us * p.timer_hz / 1000000)

unfoldable pub ms_to_control_ticks : Platform → ℕ → ℕ
ms_to_control_ticks p ms = u32 (ms * p.tick_hz / 1000)

unfoldable pub six_intervals_to_us : Platform → ℕ → ℤ
six_intervals_to_us p sum =
    if p.timer_hz == 2000000
    then signed32 (u32 (sum + 4) / 2)
    else signed32 (u32 ((sum * 1000000 + p.timer_hz / 2) / p.timer_hz))

abbrev pub am32_timer_hz : ℕ
am32_timer_hz = 2000000

unfoldable pub ticks_to_am32 : Platform → ℕ → ℕ
ticks_to_am32 p ticks =
    if p.timer_hz == am32_timer_hz
    then ticks
    else if am32_timer_hz % p.timer_hz == 0
    then min_of (ticks * (am32_timer_hz / p.timer_hz)) 4294967295
    else min_of (ticks * am32_timer_hz / p.timer_hz) 4294967295

unfoldable pub am32_ticks_to : Platform → ℕ → ℕ
am32_ticks_to p am32_ticks =
    if p.timer_hz == am32_timer_hz
    then am32_ticks
    else min_of (am32_ticks * p.timer_hz / am32_timer_hz) 4294967295

-- The product with the timer rate, an i64 that cannot overflow, and its quotient towards zero.
scale : ℤ → ℕ → ℤ
scale (pos n) hz = pos (n * hz)
scale (negsuc n) hz = sub_ℕ 0 ((n + 1) * hz)

unfoldable pub e_com_us_to_avg_ticks : Platform → ℤ → ℤ
unfolding scale
e_com_us_to_avg_ticks p us =
    if p.timer_hz == 2000000 then div3_i32 us else i32 (quot (scale us p.timer_hz) 6000000)
