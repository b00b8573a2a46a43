-- ===== src/Motor/Duty/Compare.antt =====
-- The PWM compare values of `DutyState` in rm32/src/control/state.rs.
use rm.Prelude.{ℕ, ◌+◌, ◌-◌, ◌*◌, ◌/◌, ◌≤◌, ◌<◌, ◌≡◌, ap, arith, u32}
use rm.Arith.Fast.{div10_u32, div2000_u32}
use rm.Arith.Fast.Exact.{div10-div2000_exact}
use rm.Motor.Duty.{DutyState, pwm_compare, brake_compare}

scaled-le : (c t m : ℕ) → c ≤ m → c * t ≤ m * t
scaled-le c t m h = grind arith

scaled-ge : (c t : ℕ) → 10 ≤ c → 10 * t ≤ c * t
scaled-ge c t h = grind arith

-- For a duty of at most 2000 and a period below 65535 the compare value is the duty's share of the
-- period, rounded down, plus one; so it lies in 1 .. period + 1, and full duty fills the period.
pub pwm_compare_exact :
    (d : DutyState) (arr : ℕ)
    → d.cycle ≤ 2000
    → arr < 65535
    → (pwm_compare d arr ≡ d.cycle * arr / 2000 + 1)
      × (pwm_compare d arr ≤ arr + 1)
      × (d.cycle ≡ 2000 → pwm_compare d arr ≡ arr + 1)
unfolding pwm_compare
pwm_compare_exact d arr h ha = (
  omega (arith, share, scaled-le d.cycle arr 2000 h),
  omega (arith, share, scaled-le d.cycle arr 2000 h),
  λ full. omega (arith, share, ap (λ (c : ℕ). c * arr) full),
)
  where
    share : div2000_u32 (u32 (d.cycle * arr)) ≡ u32 (d.cycle * arr) / 2000
    share = (div10-div2000_exact (u32 (d.cycle * arr)) (omega arith)).1

-- The brake compare value falls by a tenth of the period for each step of strength, and is zero
-- from a strength of ten on.
pub brake_compare_exact :
    (strength arr : ℕ)
    → strength < 256
    → arr < 65536
    → (brake_compare strength arr ≡ arr - strength * arr / 10)
      × (10 ≤ strength → brake_compare strength arr ≡ 0)
unfolding brake_compare
brake_compare_exact s arr h ha = (
  omega (arith, tenth, scaled-le s arr 256 (omega arith)),
  λ ten. omega (arith, tenth, scaled-le s arr 256 (omega arith), scaled-ge s arr ten),
)
  where
    tenth : div10_u32 (u32 (s * arr)) ≡ u32 (s * arr) / 10
    tenth = (div10-div2000_exact (u32 (s * arr)) (omega arith)).0
