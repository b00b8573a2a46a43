-- ===== src/Transfer/Burst/Copies.antt =====
-- The steps that `process` of rm32/src/transfer.rs writes out do what the helpers of `process_packet`
-- do.
use rm.Prelude.{ℕ, ◌≡◌, refl, arith, Bool}
use rm.Dshot.Frame.{DshotFrame}
use rm.Transfer.Steps.{
  TransferState, is_valid_frame, bidir_probe, idle_high_count, calibration_entry, frame_action,
}
use rm.Transfer.Burst.{
  inverted_ok, burst_probe, burst_action, burst_idle, burst_entry, burst_steady,
}

pub inverted_ok-is_valid_frame : (f : DshotFrame) → inverted_ok f ≡ is_valid_frame f
unfolding inverted_ok is_valid_frame
inverted_ok-is_valid_frame (DshotFrame.throttle v t) = refl
inverted_ok-is_valid_frame (DshotFrame.command c t) = refl
inverted_ok-is_valid_frame f = ground arith

pub burst_action-frame_action : (f : DshotFrame) → burst_action f ≡ frame_action f
unfolding burst_action frame_action
burst_action-frame_action f = ground arith

pub burst_probe-bidir_probe :
    (s : TransferState) (frame : DshotFrame) (armed telemetry pin_high : Bool)
    (inverted : DshotFrame)
    → burst_probe s frame armed telemetry pin_high inverted
      ≡ bidir_probe s frame armed telemetry pin_high inverted
unfolding burst_probe bidir_probe
burst_probe-bidir_probe s frame armed telemetry pin_high inverted =
    rw (inverted_ok-is_valid_frame frame, inverted_ok-is_valid_frame inverted) (ground arith)

pub burst_idle-idle_high_count :
    (s : TransferState) (armed dshot_mode telemetry pin_high : Bool)
    → burst_idle s armed dshot_mode telemetry pin_high
      ≡ idle_high_count s armed dshot_mode telemetry pin_high
unfolding burst_idle idle_high_count
burst_idle-idle_high_count s armed dshot_mode telemetry pin_high = ground arith

pub burst_entry-calibration_entry :
    (s : TransferState) (adjusted : ℕ) (disabled : Bool) (quiet : ℕ)
    → burst_entry s adjusted disabled quiet ≡ calibration_entry s adjusted disabled quiet
unfolding burst_entry burst_steady calibration_entry
burst_entry-calibration_entry s adjusted disabled quiet = ground arith
