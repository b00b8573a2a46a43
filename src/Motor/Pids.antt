-- ===== src/Motor/Pids.antt =====
-- rm32/src/control/state.rs, `PidState`: the three control loops and their accumulators. `clamp`
-- of the standard library panics where the lower bound is above the upper one, which is `none`.
pub mod Bounds
use rm.Prelude.{
  ℕ, ◌+◌, ◌*◌, Bool, true, false, not, ◌&&◌, ◌||◌, Option, none, some, ltb, if◌then◌else◌,
}
use rm.Prelude.Int.{ℤ, pos, ◌+ℤ◌, ◌-ℤ◌, ltb_ℤ, quot, signed32, i32, i16, as_u16}
use rm.Motor.Pid
use rm.Motor.Pid.{Pid}

pub record PidState : Type 0 where
  pub current : Pid
  pub speed : Pid
  pub stall : Pid
  pub use_current_limit : Bool
  pub current_limit_adjust : ℤ
  pub stall_adjust : ℤ
  pub stall_protect_target_interval : ℕ
  pub use_speed_control : Bool
  pub input_override : ℤ
  pub target_e_com_time : ℕ

unfoldable pub init : PidState
unfolding Pid.new
init = record {
  current = Pid.new 400 0 1000 (pos 20000) (pos 100000);
  speed = Pid.new 10 0 100 (pos 10000) (pos 50000);
  stall = Pid.new 1 0 50 (pos 10000) (pos 50000);
  use_current_limit = false;
  current_limit_adjust = pos 2000;
  stall_adjust = pos 0;
  stall_protect_target_interval = 0;
  use_speed_control = false;
  input_override = pos 0;
  target_e_com_time = 0;
}

unfoldable pub with_stall_target : ℕ → PidState
unfolding init
with_stall_target t = record init { stall_protect_target_interval = t }

unfoldable pub set_current_gains : PidState → ℕ → ℕ → ℕ → PidState
set_current_gains s kp ki kd = record s { current = Pid.set_gains s.current kp ki kd }

unfoldable pub set_use_current_limit : PidState → Bool → PidState
set_use_current_limit s v = record s { use_current_limit = v }

unfoldable pub set_use_speed_control : PidState → Bool → PidState
set_use_speed_control s v = record s { use_speed_control = v }

unfoldable pub set_target_e_com_time : PidState → ℕ → PidState
set_target_e_com_time s v = record s { target_e_com_time = v }

-- `v.clamp(lo, hi)`
unfoldable pub clamp_ℤ : ℤ → ℤ → ℤ → ℤ
clamp_ℤ lo hi v = if ltb_ℤ v lo then lo else if ltb_ℤ hi v then hi else v

unfoldable pub tick_stall : PidState → ℤ → PidState × ℕ
tick_stall s commutation_interval =
    let (stall, out) =
      Pid.calculate s.stall commutation_interval (pos s.stall_protect_target_interval) in
    let adjust = clamp_ℤ (pos 0) (pos 1500000) (i32 (s.stall_adjust +ℤ out)) in
    (record s { stall = stall; stall_adjust = adjust }, as_u16 (quot adjust 10000))

unfoldable pub tick_current_limit : PidState → ℤ → ℤ → ℤ → Bool → Option (PidState × ℕ)
tick_current_limit s actual_current target min_duty running =
    if s.use_current_limit && running
    then (let (current, out) = Pid.calculate s.current actual_current target in
        let adjust = i16 (s.current_limit_adjust -ℤ i16 (quot out 10000)) in
        if ltb_ℤ (pos 2000) min_duty
        then none
        else (let clamped = clamp_ℤ min_duty (pos 2000) adjust in
            some (record s { current = current; current_limit_adjust = clamped }, as_u16 clamped)))
    else some (record s { current_limit_adjust = pos 2000 }, 2000)

unfoldable pub tick_speed_control : PidState → ℤ → ℕ → Bool → PidState × Option ℕ
tick_speed_control s e_com_time zero_crosses running =
    if not s.use_speed_control || not running
    then (s, none)
    else (let (speed, out) = Pid.calculate s.speed e_com_time (signed32 s.target_e_com_time) in
        let over = clamp_ℤ (pos 0) (pos 20470000) (i32 (s.input_override +ℤ out)) in
        let speed' = if ltb zero_crosses 100 then Pid.clear_integral speed else speed in
        (record s { speed = speed'; input_override = over }, some (as_u16 (quot over 10000))))
