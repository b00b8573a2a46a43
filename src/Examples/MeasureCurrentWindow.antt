-- ===== src/Examples/MeasureCurrentWindow.antt =====
-- Runs of the theorems of Measure.Current.Window on concrete inputs.
use rm.Examples.Motors.{window}
use rm.Measure.Current.{update_current}
use rm.Measure.Current.Window.{IsWindow, update_current-IsWindow}
use rm.Prelude.{arith, refl, set, ◌/◌, ◌≡◌}
use rm.Prelude.Sums.{sum}

update_current-IsWindow_example :
    IsWindow (update_current window 4095).0
    × ((update_current window 4095).1 ≡ sum (set window.readings window.index 4095) / 50)
unfolding sum
update_current-IsWindow_example =
    update_current-IsWindow window 4095
      (record { size = refl; words = omega arith; inside = omega arith; summed = refl })
      (omega arith)
