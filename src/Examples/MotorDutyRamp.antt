-- ===== src/Examples/MotorDutyRamp.antt =====
-- Runs of the theorems of Motor.Duty.Ramp on concrete inputs.
use rm.Examples.Data.{board, duty}
use rm.Motor.Duty.{change_for, ramp_limit}
use rm.Motor.Duty.Ramp.{ramp_limit_slew}
use rm.Prelude.{arith, false, max, min, ◌+◌, ◌<◌, ◌≡◌, ◌≤◌}

ramp_limit_slew_example :
    let e = ramp_limit board duty 1600 400 200 300 false in
    let change = change_for board duty 1600 400 200 300 false in
    (duty.ramp_count ≤ duty.ramp_divider
      → (e.cycle ≡ duty.last) × (e.ramp_count ≡ duty.ramp_count) × (e.max_change ≡ duty.max_change))
    × (duty.ramp_divider < duty.ramp_count
        → (e.cycle ≤ duty.last + change)
          × (duty.last ≤ e.cycle + change)
          × (min duty.last duty.cycle ≤ e.cycle)
          × (e.cycle ≤ max duty.last duty.cycle)
          × (duty.cycle ≤ duty.last + change
              → duty.last ≤ duty.cycle + change
              → e.cycle ≡ duty.cycle)
          × (e.ramp_count ≡ 0)
          × (e.max_change ≡ change))
    × (e.last ≡ duty.last)
unfolding change_for
ramp_limit_slew_example =
    ramp_limit_slew board duty 1600 400 200 300 false (omega arith) (omega arith) (ground arith)
