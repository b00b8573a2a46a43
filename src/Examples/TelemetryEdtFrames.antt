-- ===== src/Examples/TelemetryEdtFrames.antt =====
-- Runs of the theorems of Telemetry.Edt.Frames on concrete inputs.
use rm.Dshot.Gcr.{erpm_to_12bit}
use rm.Examples.Motors.{edt}
use rm.Prelude.{arith, false, true, ◌&&◌, ◌≡◌}
use rm.Prelude.Int.{pos}
use rm.Telemetry.Edt.{next_frame}
use rm.Telemetry.Edt.Frames.{IsApart, is_data, next_frame-IsApart, next_frame_alternates}

next_frame-IsApart_example :
    IsApart (next_frame edt (pos 1250) 1480 (pos 31)).1 (erpm_to_12bit 1440 true)
next_frame-IsApart_example = next_frame-IsApart edt (pos 1250) 1480 (pos 31) 1440 true (omega arith)

next_frame_alternates_example :
    (is_data (next_frame edt (pos 1250) 1480 (pos 31)).1
      && is_data
          (next_frame (next_frame edt (pos 1250) 1480 (pos 31)).0 (pos 1260) 1479 (pos 32)).1)
    ≡ false
next_frame_alternates_example =
    next_frame_alternates edt (pos 1250) (pos 1260) 1480 1479 (pos 31) (pos 32)
