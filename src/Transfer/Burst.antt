-- ===== src/Transfer/Burst.antt =====
-- rm32/src/transfer.rs, `process`: the probe for bidirectional DShot, the action of a frame, the
-- count of idle-high frames and the entry into calibration as `process` writes them out. The helpers
-- of `process_packet` with the same purpose stand in Transfer.Steps; Copies compares the two.
pub mod Copies
use rm.Prelude.{
  ℕ, ◌+◌, Bool, true, false, not, ◌&&◌, ltb, leb, ◌==◌, if◌then◌else◌, u8, u16, sat_add8,
}
use rm.Prelude.Int.{pos}
use rm.Arith.Map.{get_abs_dif}
use rm.Constants.{
  bidir_confirm_frames, bidir_idle_high_frames, calibration_entry_count, calibration_min_throttle,
  calibration_max_jitter,
}
use rm.Dshot.Frame.{DshotFrame}
use rm.Transfer.Steps.{TransferState, TransferAction, no_action, dshot_throttle, dshot_command}

-- `matches!(inverted, Throttle { .. } | Command { .. })`
unfoldable pub inverted_ok : DshotFrame → Bool
inverted_ok (DshotFrame.throttle v t) = true
inverted_ok (DshotFrame.command c t) = true
inverted_ok _ = false

-- The state, and whether bidirectional DShot is detected.
unfoldable pub burst_probe :
    TransferState → DshotFrame → Bool → Bool → Bool → DshotFrame → TransferState × Bool
burst_probe s frame armed telemetry pin_high inverted =
    let counted = record s { bidir_confirms = sat_add8 s.bidir_confirms 1 } in
    let cleared = record s { bidir_confirms = 0 } in
    if not armed && (not telemetry && (pin_high && leb bidir_idle_high_frames s.high_pin_count))
    then if inverted_ok inverted
      then (counted, leb bidir_confirm_frames counted.bidir_confirms)
      else (if inverted_ok frame then record cleared { high_pin_count = 0 } else cleared, false)
    else (s, false)

unfoldable pub burst_action : DshotFrame → TransferAction
burst_action (DshotFrame.throttle v t) = dshot_throttle v t
burst_action (DshotFrame.command c t) = dshot_command c t
burst_action _ = no_action

unfoldable pub burst_idle : TransferState → Bool → Bool → Bool → Bool → TransferState
burst_idle s armed dshot_mode telemetry pin_high =
    let restarted = record s { high_pin_count = 0; bidir_confirms = 0 } in
    if not armed
    then if dshot_mode && (not telemetry && pin_high)
      then record s { high_pin_count = sat_add8 s.high_pin_count 1 }
      else restarted
    else restarted

-- The steps under a throttle above the minimum: the count, the entry, and the last input.
unfoldable pub burst_steady : TransferState → ℕ → TransferState
burst_steady s adjusted =
    let jitters = ltb calibration_max_jitter (get_abs_dif (pos adjusted) (pos s.last_input)) in
    let t = record s {
      enter_calibration_count = if jitters then 0 else u8 (s.enter_calibration_count + 1);
    } in
    let e = record t {
      servo_state = record t.servo_state { calibration_required = true };
      enter_calibration_count = 0;
    } in
    let u =
      if ltb calibration_entry_count t.enter_calibration_count
        && not t.servo_state.high_calibration_set
      then e
      else t in
    record u { last_input = adjusted }

unfoldable pub burst_entry : TransferState → ℕ → Bool → ℕ → TransferState × ℕ
unfolding burst_steady
burst_entry s adjusted disabled zero_count =
    if adjusted == 0 && not s.servo_state.calibration_required
    then (s, u16 (zero_count + 1))
    else if not disabled
    then (if ltb calibration_min_throttle adjusted then burst_steady s adjusted else s, 0)
    else (s, zero_count)
