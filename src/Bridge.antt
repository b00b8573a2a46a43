-- ===== src/Bridge.antt =====
-- rm32/src/bridge.rs and the phase table of rm32/src/hal.rs: what each leg of the bridge does in each
-- commutation step, and which phase floats. A call to the hardware is a value of `HalCall`; what the
-- drivers behind it do is not part of the crate.
pub mod Sectors
use rm.Prelude.{ℕ, Bool, true, false, ◌||◌, leb, ◌==◌, if◌then◌else◌}

pub data LegRole : Type 0 where
  float low_solid pwm_diode pwm_complementary low_pwm : LegRole

pub data PwmMode : Type 0 where
  diode complementary : PwmMode

pub data Phase : Type 0 where
  phase_a phase_b phase_c : Phase

pub record Legs : Type 0 where
  pub leg_a : LegRole
  pub leg_b : LegRole
  pub leg_c : LegRole

unfoldable pub pwm_role : PwmMode → LegRole
pwm_role diode = pwm_diode
pwm_role complementary = pwm_complementary

abbrev legs : LegRole → LegRole → LegRole → Legs
legs a b c = record { leg_a = a; leg_b = b; leg_c = c }

unfoldable pub step_legs : ℕ → PwmMode → Legs
unfolding pwm_role
step_legs step mode =
    let pwm = pwm_role mode in
    if step == 1
    then legs pwm low_solid float
    else if step == 2
    then legs float low_solid pwm
    else if step == 3
    then legs low_solid float pwm
    else if step == 4
    then legs low_solid pwm float
    else if step == 5
    then legs float pwm low_solid
    else if step == 6
    then legs pwm float low_solid
    else legs float float float

-- `matches!(leg, LegRole::Float)`
unfoldable pub is_float : LegRole → Bool
is_float float = true
is_float _ = false

unfoldable pub floating_phase : ℕ → Phase
unfolding is_float
floating_phase step =
    let ls = step_legs step diode in
    if leb 1 step
    then (if leb step 6
        then (if is_float ls.leg_a then phase_a else if is_float ls.leg_b then phase_b else phase_c)
        else phase_c)
    else phase_c

-- The calls of the hardware traits that the control code makes.
pub data HalCall : Type 0 where
  mask_irq enable_irq clear_pending repend : HalCall
  select_phase : Phase → Bool → HalCall
  bridge_off latch proportional_brake : HalCall
  com_step : ℕ → PwmMode → HalCall
  pulse_toggle set_duty_all set_period : ℕ → HalCall
  set_count : ℕ → HalCall
  set_and_enable : ℕ → HalCall
  disable_interrupt : HalCall
