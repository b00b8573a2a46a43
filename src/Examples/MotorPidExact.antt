-- ===== src/Examples/MotorPidExact.antt =====
-- Runs of the theorems of Motor.Pid.Exact on concrete inputs.
use rm.Examples.Data.{tuned}
use rm.Motor.Pid.{calculate}
use rm.Motor.Pid.Exact.{IsLimit, IsModest, calculate_exact}
use rm.Prelude.{arith, refl}
use rm.Prelude.Int.{pos, ◌*ℤ◌, ◌+ℤ◌, ◌-ℤ◌}

calculate_exact_example :
    let e = (pos 500) -ℤ (pos 300) in
    let d = (calculate tuned (pos 500) (pos 300)).0 in
    IsLimit 20000 (tuned.integral +ℤ e *ℤ pos tuned.ki) d.integral
    × IsLimit 100000
        (e *ℤ pos tuned.kp +ℤ d.integral +ℤ pos tuned.kd *ℤ (e -ℤ tuned.last_error))
        (calculate tuned (pos 500) (pos 300)).1
    × IsModest 20000 d
calculate_exact_example =
    calculate_exact tuned (pos 500) (pos 300) 20000 100000
      (record {
        limit = refl;
        gain_p = omega arith;
        gain_i = omega arith;
        gain_d = omega arith;
        integral = record { low = omega arith; high = omega arith };
        before = record { low = omega arith; high = omega arith };
      })
      (omega arith) refl (omega arith) (record { low = omega arith; high = omega arith })
      (record { low = omega arith; high = omega arith })
