-- ===== src/Bridge/Sectors.antt =====
-- The six-step table as a whole.
use rm.Prelude.{ℕ, ◌≤◌, Bool, true, false, ◌&&◌, ◌||◌, ◌≡◌, arith}
use rm.Bridge.{
  LegRole, Legs, low_solid, pwm_diode, pwm_complementary, PwmMode, diode, complementary, Phase,
  phase_a, phase_b, phase_c, pwm_role, step_legs, is_float, floating_phase,
}

unfoldable pub leg_at : Legs → Phase → LegRole
leg_at ls phase_a = ls.leg_a
leg_at ls phase_b = ls.leg_b
leg_at ls phase_c = ls.leg_c

-- The next phase in the order A, B, C, A.
unfoldable pub next_phase : Phase → Phase
next_phase phase_a = phase_b
next_phase phase_b = phase_c
next_phase phase_c = phase_a

unfoldable pub is_low : LegRole → Bool
is_low low_solid = true
is_low _ = false

unfoldable pub is_driven : LegRole → Bool
is_driven pwm_diode = true
is_driven pwm_complementary = true
is_driven _ = false

-- One leg drives and another one sinks.
unfoldable pub is_pair : LegRole → LegRole → Bool
unfolding is_low is_driven
is_pair a b = (is_driven a && is_low b) || (is_low a && is_driven b)

unfoldable pub is_sector : PwmMode → ℕ → Bool
unfolding leg_at next_phase is_float is_pair
is_sector mode step =
    let ls = step_legs step mode in
    let phase = floating_phase step in
    is_float (leg_at ls phase)
    && is_pair (leg_at ls (next_phase phase)) (leg_at ls (next_phase (next_phase phase)))

-- In each step from 1 to 6 and both PWM modes, the phase to which the comparator is routed is a
-- floating leg, and of the two other legs one drives and one sinks: the current always has one path.
pub step_legs-floating_phase :
    (step : ℕ) (mode : PwmMode) → 1 ≤ step → step ≤ 6 → is_sector mode step ≡ true
unfolding is_sector step_legs floating_phase is_float is_pair is_low is_driven leg_at next_phase
    pwm_role
step_legs-floating_phase step diode low high = ground arith
step_legs-floating_phase step complementary low high = ground arith
