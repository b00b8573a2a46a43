-- ===== src/Motor/Pid.antt =====
-- rm32/src/pid.rs: the integer PID controller. Gains are u32 and are cast to i32; each i32 operation
-- wraps, as in the release profile, which has no overflow checks.
pub mod Law
pub mod Exact
use rm.Prelude.{ℕ, Bool, if◌then◌else◌}
use rm.Prelude.Int.{ℤ, pos, ◌+ℤ◌, ◌-ℤ◌, ◌*ℤ◌, neg, ltb_ℤ, signed32, i32}

pub record Pid : Type 0 where
  pub error : ℤ
  pub kp : ℕ
  pub ki : ℕ
  pub kd : ℕ
  pub integral : ℤ
  pub derivative : ℤ
  pub last_error : ℤ
  pub pid_output : ℤ
  pub integral_limit : ℤ
  pub output_limit : ℤ

unfoldable pub new : ℕ → ℕ → ℕ → ℤ → ℤ → Pid
new kp ki kd integral_limit output_limit = record {
  error = pos 0;
  kp = kp;
  ki = ki;
  kd = kd;
  integral = pos 0;
  derivative = pos 0;
  last_error = pos 0;
  pid_output = pos 0;
  integral_limit = integral_limit;
  output_limit = output_limit;
}

-- The two tests against a limit, in the order of the source.
unfoldable pub limited : ℤ → ℤ → ℤ
limited limit v =
    let w = if ltb_ℤ limit v then limit else v in
    if ltb_ℤ w (i32 (neg limit)) then i32 (neg limit) else w

unfoldable pub calculate : Pid → ℤ → ℤ → Pid × ℤ
unfolding limited
calculate c actual target =
    let error = i32 (actual -ℤ target) in
    let integral = limited c.integral_limit (i32 (c.integral +ℤ i32 (error *ℤ signed32 c.ki))) in
    let derivative = i32 (signed32 c.kd *ℤ i32 (error -ℤ c.last_error)) in
    let out =
      limited c.output_limit (i32 (i32 (i32 (error *ℤ signed32 c.kp) +ℤ integral) +ℤ derivative)) in
    (
      record c {
        error = error;
        integral = integral;
        derivative = derivative;
        last_error = error;
        pid_output = out;
      },
      out,
    )

unfoldable pub reset : Pid → Pid
reset c = record c {
  error = pos 0;
  integral = pos 0;
  derivative = pos 0;
  last_error = pos 0;
  pid_output = pos 0;
}

unfoldable pub set_gains : Pid → ℕ → ℕ → ℕ → Pid
unfolding reset
set_gains c kp ki kd = reset (record c { kp = kp; ki = ki; kd = kd })

unfoldable pub clear_integral : Pid → Pid
clear_integral c = record c { integral = pos 0 }
