-- ===== src/Examples/ServoCalibration.antt =====
-- Runs of the theorems of Servo.Calibration on concrete inputs.
use rm.Examples.Data.{calibrated, held_high, last_pulse, raised_stick}
use rm.Prelude.{arith, false, true, ◌*◌, ◌+◌, ◌≡◌, ◌≤◌}
use rm.Servo.{calibrate_low}
use rm.Servo.Calibration.{calibration_bytes, calibration_ends, in_range, is_over, pulses_seen}

calibration_ends_example : is_over (pulses_seen raised_stick false held_high) ≡ true
unfolding in_range
calibration_ends_example = calibration_ends raised_stick false held_high (omega arith) (omega arith)

calibration_bytes_example :
    (calibrated.calibration_required ≡ false)
    × (750 ≤ calibrated.low_threshold
        → calibrated.low_threshold ≤ 1261
        → (750 + 2 * 193 ≤ calibrated.low_threshold) × (calibrated.low_threshold ≤ 751 + 2 * 193))
    × (1750 ≤ calibrated.high_threshold
        → calibrated.high_threshold ≤ 2261
        → (1750 + 2 * 75 ≤ calibrated.high_threshold) × (calibrated.high_threshold ≤ 1751 + 2 * 75))
    × (1262 ≤ calibrated.low_threshold
        → calibrated.low_threshold ≤ 1773
        → 750 + 2 * 193 + 512 ≤ calibrated.low_threshold)
unfolding calibrate_low
calibration_bytes_example = calibration_bytes last_pulse calibrated 1200 193 75 (ground arith)
