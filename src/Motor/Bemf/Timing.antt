-- ===== src/Motor/Bemf/Timing.antt =====
-- The commutation timing of `BemfState` in rm32/src/control/state.rs.
use rm.Prelude.{ℕ, ◌+◌, ◌-◌, ◌*◌, ◌/◌, ◌≤◌, ◌<◌, ◌≡◌, refl, arith, true, min, max, u32}
use rm.Motor.Bemf.{BemfState, record_zero_cross, update_timing_from_timer, com_timer_delay}

product : (a c : ℕ) → a ≤ 64 → a * c ≤ 64 * c
product a c h = grind arith

at_least : (a c : ℕ) → 32 ≤ a → 32 * c ≤ a * c
at_least a c h = grind arith

-- A zero cross moves the commutation interval a quarter of the way to the measured time, between
-- the two; the wait is half the new interval less the advance of `temp_advance` 64ths of it (none
-- is left from 32 on), and fits the timer. The times are shifted and the crossing is latched.
pub record_zero_cross_timing :
    (b : BemfState) (t ci : ℕ)
    → t < 65536
    → ci ≤ 65535
    → b.temp_advance ≤ 64
    → let r = record_zero_cross b t ci in
      (min t ci ≤ r.1)
      × (r.1 ≤ max t ci)
      × (r.1 ≡ (t + 3 * ci) / 4)
      × (r.0.wait_time ≡ r.1 / 2 - b.temp_advance * r.1 / 64)
      × (r.0.wait_time ≤ r.1 / 2)
      × (com_timer_delay r.0 ≡ r.0.wait_time + 1)
      × (32 ≤ b.temp_advance → r.0.wait_time ≡ 0)
      × (r.0.last_zc_time ≡ b.this_zc_time)
      × (r.0.this_zc_time ≡ t)
      × (r.0.zc_found ≡ true)
unfolding record_zero_cross com_timer_delay
record_zero_cross_timing b t ci ht hc ha = (
  omega arith,
  omega arith,
  omega arith,
  omega (arith, product b.temp_advance (u32 (t + u32 (3 * ci)) / 4) ha),
  omega (arith, product b.temp_advance (u32 (t + u32 (3 * ci)) / 4) ha),
  omega (arith, product b.temp_advance (u32 (t + u32 (3 * ci)) / 4) ha),
  λ h. omega (
    arith,
    product b.temp_advance (u32 (t + u32 (3 * ci)) / 4) ha,
    at_least b.temp_advance (u32 (t + u32 (3 * ci)) / 4) h,
  ),
  refl,
  refl,
  refl,
)

-- The timer path takes the mean of the interval and of the last two crossing times; the interval
-- stays within their range, and the wait is formed as at a zero cross.
pub update_timing_from_timer_mean :
    (b : BemfState) (ci : ℕ)
    → b.last_zc_time < 65536
    → b.this_zc_time < 65536
    → ci < 65536
    → b.temp_advance ≤ 64
    → let r = update_timing_from_timer b ci in
      (r.1 ≡ (ci + (b.last_zc_time + b.this_zc_time) / 2) / 2)
      × (min ci (min b.last_zc_time b.this_zc_time) ≤ r.1)
      × (r.1 ≤ max ci (max b.last_zc_time b.this_zc_time))
      × (r.0.wait_time ≡ r.1 / 2 - b.temp_advance * r.1 / 64)
unfolding update_timing_from_timer
update_timing_from_timer_mean b ci hl ht hc ha = (
  omega arith,
  omega arith,
  omega arith,
  omega
      (arith, product b.temp_advance (u32 (ci + u32 (b.last_zc_time + b.this_zc_time) / 2) / 2) ha),
)
