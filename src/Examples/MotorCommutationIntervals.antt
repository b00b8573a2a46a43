-- ===== src/Examples/MotorCommutationIntervals.antt =====
-- Runs of the theorems of Motor.Commutation.Intervals on concrete inputs.
use rm.Examples.Data.{board, wheel}
use rm.Motor.Commutation.{record_interval, slot}
use rm.Motor.Commutation.Intervals.{IsSummed, record_interval-IsSummed}
use rm.Platform.{six_intervals_to_us}
use rm.Prelude.{arith, refl, set, ◌≡◌}
use rm.Prelude.Sums.{sum}

record_interval-IsSummed_example :
    IsSummed (record_interval board wheel 480).0
    × ((record_interval board wheel 480).0.intervals ≡ set wheel.intervals (slot wheel) 480)
    × ((record_interval board wheel 480).1
        ≡ six_intervals_to_us board (sum (record_interval board wheel 480).0.intervals))
unfolding sum
record_interval-IsSummed_example =
    record_interval-IsSummed board wheel 480
      (record { size = refl; words = omega arith; summed = refl }) (omega arith)
