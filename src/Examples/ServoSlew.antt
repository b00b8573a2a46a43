-- ===== src/Examples/ServoSlew.antt =====
-- Runs of the theorems of Servo.Slew on concrete inputs.
use rm.Examples.Data.{stick}
use rm.Prelude.{arith, false, refl, ℕ, ◌*◌, ◌+◌, ◌≡◌, ◌≤◌}
use rm.Prelude.Int.{pos}
use rm.Servo.{ServoResult, compute, raw_of}
use rm.Servo.Slew.{repeated, servo_settles, towards}

servo_settles_example :
    (t : ℕ) × (raw_of stick 1700 false ≡ pos t)
    × (t ≤ 2047)
    × (compute stick 1700 300 false ≡ (
      record stick { raw_input = pos t },
      ServoResult.throttle (towards stick.max_deviation t 300),
    ))
    × (towards stick.max_deviation t 300 ≤ 2047)
    × ((n : ℕ)
        → t ≤ 300 + n * stick.max_deviation
        → 300 ≤ t + n * stick.max_deviation
        → repeated stick 1700 false 300 n ≡ t)
servo_settles_example =
    servo_settles stick 1700 300 false
      (record {
        normal = refl;
        low = omega arith;
        high = omega arith;
        middle = omega arith;
        step = (omega arith, omega arith);
      })
      (omega arith) (omega arith) (omega arith)
