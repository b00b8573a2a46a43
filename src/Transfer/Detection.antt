-- ===== src/Transfer/Detection.antt =====
-- What rm32/src/transfer.rs requires before it accepts a protocol, bidirectional DShot or a calibration.
use rm.Prelude.{
  ℕ, ◌≤◌, ◌<◌, ◌≡◌, ◌↔◌, arith, Bool, true, false, List, Option, none, some, length, take, ◌⊎◌,
}
use rm.Platform.{Platform}
use rm.Signal.{detect_input}
use rm.Dshot.Frame.{DshotFrame, decode_frame}
use rm.Transfer.{Call, process, input_stage, housekeeping}
use rm.Transfer.Steps.{
  TransferState, TransferAction, DetectedProtocol, confirm_protocol, protocol_of, detection,
  is_valid_frame, average_frames,
}
use rm.Transfer.Burst.{burst_probe, burst_idle, burst_entry, burst_steady}
use rm.Transfer.Burst.Copies.{inverted_ok-is_valid_frame}

confirmed :
    (s : TransferState) (found : Option DetectedProtocol) (q : DetectedProtocol)
    → let r = confirm_protocol s found in
      ((r.1 ≡ some q) ↔ ((found ≡ some q) × (s.pending_protocol ≡ some q)))
      × (r.1 ≡ some q → r.0.pending_protocol ≡ none)
      × (r.1 ≡ none → r.0.pending_protocol ≡ found)
unfolding confirm_protocol
confirmed s found q = ground arith

-- Before an input is set, a burst is accepted as a protocol exactly if it is detected as that
-- protocol and the burst before left the same one pending; an accepted one clears the pending
-- protocol, any other burst replaces it by what it was detected as.
pub detection_twice :
    (p : Platform) (s : TransferState) (edges : List ℕ) (k : Call) (quiet : ℕ)
    (q : DetectedProtocol)
    → k.input_set ≡ false
    → let r = process p s edges k quiet in
      let found = protocol_of (detect_input edges) in
      ((r.1.action ≡ TransferAction.input_detected q)
        ↔ ((found ≡ some q) × (s.pending_protocol ≡ some q)))
      × (r.1.action ≡ TransferAction.input_detected q → r.0.pending_protocol ≡ none)
      × (r.1.action ≡ TransferAction.no_action → r.0.pending_protocol ≡ found)
unfolding process detection
detection_twice p s edges k quiet q h =
    ground (arith, confirmed s (protocol_of (detect_input edges)) q)

probed :
    (s : TransferState) (frame inverted : DshotFrame) (armed telemetry high : Bool)
    → (burst_probe s frame armed telemetry high inverted).1 ≡ true
    → (armed ≡ false)
      × (telemetry ≡ false)
      × (high ≡ true)
      × (100 ≤ s.high_pin_count)
      × (3 ≤ s.bidir_confirms)
      × (is_valid_frame inverted ≡ true)
unfolding burst_probe
probed s frame inverted armed telemetry high e = ground (arith, inverted_ok-is_valid_frame inverted)

restarted :
    (s : TransferState) (armed mode telemetry high : Bool)
    → (armed ≡ true) ⊎ (telemetry ≡ true) ⊎ (high ≡ false)
    → let t = burst_idle s armed mode telemetry high in
      (t.high_pin_count ≡ 0) × (t.bidir_confirms ≡ 0)
unfolding burst_idle
restarted s armed mode telemetry high h = ground arith

entry_counters :
    (s : TransferState) (adjusted : ℕ) (disabled : Bool) (quiet : ℕ)
    → let t = (burst_entry s adjusted disabled quiet).0 in
      (t.high_pin_count ≡ s.high_pin_count) × (t.bidir_confirms ≡ s.bidir_confirms)
unfolding burst_entry burst_steady
entry_counters s adjusted disabled quiet = ground arith

average_counters :
    (s : TransferState) (edges : List ℕ) (mode : Bool) (quiet : ℕ)
    → let t = (average_frames s edges mode quiet).0 in
      (t.high_pin_count ≡ s.high_pin_count)
      × (t.bidir_confirms ≡ s.bidir_confirms)
      × (t.servo_state ≡ s.servo_state)
      × (t.enter_calibration_count ≡ s.enter_calibration_count)
unfolding average_frames
average_counters s edges mode quiet = ground arith

kept_counters :
    (s : TransferState) (edges : List ℕ) (k : Call) (quiet : ℕ)
    → let t = (housekeeping s edges k quiet).0 in
      (t.high_pin_count ≡ s.high_pin_count) × (t.bidir_confirms ≡ s.bidir_confirms)
unfolding housekeeping
kept_counters s edges k quiet =
    let a = (average_frames s edges k.dshot_mode quiet).0 in
    ground (
      arith,
      average_counters s edges k.dshot_mode quiet,
      entry_counters a k.adjusted_input k.disable_stick_cal quiet,
    )

-- The flag of the input stage, and the fields that it keeps outside servo mode.
staged :
    (s : TransferState) (edges : List ℕ) (k : Call) (quiet : ℕ)
    → let i = (input_stage s edges k quiet).0 in
      let inverted = decode_frame (take 32 edges) k.frametime_low k.frametime_high true in
      i.1 ≡ true
      → (k.armed ≡ false)
        × (k.dshot_telemetry ≡ false)
        × (k.input_pin_high ≡ true)
        × (k.dshot_mode ≡ true)
        × (100 ≤ s.high_pin_count)
        × (3 ≤ s.bidir_confirms)
        × (32 ≤ length edges)
        × (is_valid_frame inverted ≡ true)
unfolding input_stage
staged s edges k quiet e =
    let frame = decode_frame (take 32 edges) k.frametime_low k.frametime_high k.dshot_telemetry in
    let inverted = decode_frame (take 32 edges) k.frametime_low k.frametime_high true in
    ground (arith, probed s frame inverted k.armed k.dshot_telemetry k.input_pin_high)

probe_keeps :
    (s : TransferState) (frame inverted : DshotFrame) (armed telemetry high : Bool)
    → let t = (burst_probe s frame armed telemetry high inverted).0 in
      (t.servo_state ≡ s.servo_state)
      × (t.enter_calibration_count ≡ s.enter_calibration_count)
      × (t.average_count ≡ s.average_count)
      × (t.last_input ≡ s.last_input)
unfolding burst_probe
probe_keeps s frame inverted armed telemetry high = ground arith

idle_keeps :
    (s : TransferState) (armed mode telemetry high : Bool)
    → let t = burst_idle s armed mode telemetry high in
      (t.servo_state ≡ s.servo_state)
      × (t.enter_calibration_count ≡ s.enter_calibration_count)
      × (t.average_count ≡ s.average_count)
      × (t.last_input ≡ s.last_input)
unfolding burst_idle
idle_keeps s armed mode telemetry high = ground arith

stage_keeps :
    (s : TransferState) (edges : List ℕ) (k : Call) (quiet : ℕ)
    → k.servo_mode ≡ false
    → let t = (input_stage s edges k quiet).0.0 in
      (t.servo_state ≡ s.servo_state)
      × (t.enter_calibration_count ≡ s.enter_calibration_count)
      × (t.average_count ≡ s.average_count)
      × (t.last_input ≡ s.last_input)
unfolding input_stage
stage_keeps s edges k quiet h =
    let frame = decode_frame (take 32 edges) k.frametime_low k.frametime_high k.dshot_telemetry in
    let inverted = decode_frame (take 32 edges) k.frametime_low k.frametime_high true in
    ground (arith, probe_keeps s frame inverted k.armed k.dshot_telemetry k.input_pin_high)

entered :
    (s : TransferState) (adjusted : ℕ) (disabled : Bool) (quiet : ℕ)
    → s.servo_state.calibration_required ≡ false
    → (burst_entry s adjusted disabled quiet).0.servo_state.calibration_required ≡ true
    → (disabled ≡ false)
      × (1500 < adjusted)
      × (50 ≤ s.enter_calibration_count)
      × (s.servo_state.high_calibration_set ≡ false)
unfolding burst_entry burst_steady
entered s adjusted disabled quiet h e = ground arith

-- With an input set, a call that reports bidirectional DShot is unarmed, not yet bidirectional,
-- with the line high, after at least 100 idle-high frames and at least 3 confirmations, on a
-- DShot burst of at least 32 edges that is valid under the inverted checksum; and a call that is
-- armed, bidirectional or has the line low starts both counters again.
pub bidir_guard :
    (p : Platform) (s : TransferState) (edges : List ℕ) (k : Call) (quiet : ℕ)
    → k.input_set ≡ true
    → let r = process p s edges k quiet in
      let inverted = decode_frame (take 32 edges) k.frametime_low k.frametime_high true in
      (r.1.bidir_detected ≡ true
        → (k.armed ≡ false)
          × (k.dshot_telemetry ≡ false)
          × (k.input_pin_high ≡ true)
          × (k.dshot_mode ≡ true)
          × (100 ≤ s.high_pin_count)
          × (3 ≤ s.bidir_confirms)
          × (32 ≤ length edges)
          × (is_valid_frame inverted ≡ true))
      × ((k.armed ≡ true) ⊎ (k.dshot_telemetry ≡ true) ⊎ (k.input_pin_high ≡ false)
          → (r.0.high_pin_count ≡ 0) × (r.0.bidir_confirms ≡ 0))
unfolding process
bidir_guard p s edges k quiet h =
    let i = input_stage s edges k quiet in
    let t = burst_idle i.0.0 k.armed k.dshot_mode k.dshot_telemetry k.input_pin_high in
    (
      λ e. ground (arith, staged s edges k quiet),
      λ e. ground (
        arith,
        kept_counters t edges k i.2,
        restarted i.0.0 k.armed k.dshot_mode k.dshot_telemetry k.input_pin_high e,
      ),
    )

-- With an input set and outside servo mode, a call turns the calibration on only if it is
-- unarmed, with stick calibration enabled and a throttle above 1500, after at least 50 steady
-- ones, and the high stage is not done; an armed call reports no frame time and keeps the count
-- of averaged frames, the steady count and the last input.
pub calibration_guard :
    (p : Platform) (s : TransferState) (edges : List ℕ) (k : Call) (quiet : ℕ)
    → k.input_set ≡ true
    → k.servo_mode ≡ false
    → let r = process p s edges k quiet in
      (s.servo_state.calibration_required ≡ false
        → r.0.servo_state.calibration_required ≡ true
        → (k.armed ≡ false)
          × (k.disable_stick_cal ≡ false)
          × (1500 < k.adjusted_input)
          × (50 ≤ s.enter_calibration_count)
          × (s.servo_state.high_calibration_set ≡ false))
      × (k.armed ≡ true
          → (r.1.frametime ≡ none)
            × (r.0.average_count ≡ s.average_count)
            × (r.0.enter_calibration_count ≡ s.enter_calibration_count)
            × (r.0.last_input ≡ s.last_input))
unfolding process housekeeping
calibration_guard p s edges k quiet h m =
    let i = input_stage s edges k quiet in
    let t = burst_idle i.0.0 k.armed k.dshot_mode k.dshot_telemetry k.input_pin_high in
    let a = (average_frames t edges k.dshot_mode i.2).0 in
    let st = stage_keeps s edges k quiet m in
    let id = idle_keeps i.0.0 k.armed k.dshot_mode k.dshot_telemetry k.input_pin_high in
    let av = average_counters t edges k.dshot_mode i.2 in
    (
      λ e f. ground (arith, st, id, av, entered a k.adjusted_input k.disable_stick_cal i.2),
      λ e. ground (arith, st, id),
    )
