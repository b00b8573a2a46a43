-- ===== src/Examples/MeasureCurrentCharge.antt =====
-- Runs of the theorems of Measure.Current.Charge on concrete inputs.
use rm.Examples.Data.{board}
use rm.Measure.Current.{accumulate}
use rm.Measure.Current.Charge.{accumulate_split}
use rm.Prelude.{arith, ◌+◌, ◌≡◌}
use rm.Prelude.Int.{pos}

accumulate_split_example :
    accumulate board 7200000 (pos 1500) (20 + 35)
    ≡ accumulate board (accumulate board 7200000 (pos 1500) 20) (pos 1500) 35
accumulate_split_example = accumulate_split board 7200000 (pos 1500) 20 35 (omega arith)
