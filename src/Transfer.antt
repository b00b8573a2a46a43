-- ===== src/Transfer.antt =====
-- rm32/src/transfer.rs: the dispatcher of a captured burst (`process`) or a sliced packet
-- (`process_packet`). The flags that a call passes in are the record `Call`; the caller's counter of
-- zero inputs is an argument and a result.
pub mod Steps
pub mod Burst
pub mod Detection
pub mod Paths
use rm.Prelude.{
  ℕ, ◌+◌, Bool, true, false, not, ◌&&◌, ◌||◌, List, Option, none, some, leb, if◌then◌else◌, u16,
  sub32, get_or, length, take,
}
use rm.Platform.{Platform}
use rm.Dshot.Frame.{DshotFrame, decode_frame, unpack}
use rm.Signal.{detect_input}
use rm.Servo.{compute}
use Burst.{burst_probe, burst_action, burst_idle, burst_entry}
use Steps.{
  TransferState, TransferAction, no_action, input_detected, CaptureConfig, capture, TransferActions,
  actions, reported, dshot, confirm_protocol, detection, is_valid_frame, bidir_probe,
  idle_high_count, calibration_entry, frame_action, average_frames, servo_action,
}

-- The flags and values that a call passes in.
pub record Call : Type 0 where
  pub input_set : Bool
  pub dshot_mode : Bool
  pub servo_mode : Bool
  pub dshot_telemetry : Bool
  pub armed : Bool
  pub input_pin_high : Bool
  pub adjusted_input : ℕ
  pub current_newinput : ℕ
  pub bidirectional : Bool
  pub disable_stick_cal : Bool
  pub frametime_low : ℕ
  pub frametime_high : ℕ

-- The DShot or servo arm of `process`, with the flag of the bidirectional probe.
unfoldable pub input_stage :
    TransferState → List ℕ → Call → ℕ → (TransferState × Bool) × TransferAction × ℕ
input_stage s edges k quiet =
    let burst = take 32 edges in
    let frame = decode_frame burst k.frametime_low k.frametime_high k.dshot_telemetry in
    let inverted = decode_frame burst k.frametime_low k.frametime_high true in
    let pulse = u16 (sub32 (get_or edges 1 0) (get_or edges 0 0)) in
    let r = servo_action s (compute s.servo_state pulse k.current_newinput k.bidirectional) quiet in
    if k.dshot_mode && leb 32 (length edges)
    then (
      burst_probe s frame k.armed k.dshot_telemetry k.input_pin_high inverted,
      burst_action frame,
      quiet,
    )
    else if k.servo_mode && not k.input_pin_high && leb 2 (length edges)
    then ((r.0, false), r.1, r.2)
    else ((s, false), no_action, quiet)

-- `CaptureConfig::SERVO_REALIGN`, `SERVO` and `DSHOT`.
unfoldable pub next_capture_of : Call → CaptureConfig
next_capture_of k =
    if k.servo_mode
    then if k.input_pin_high then capture 3 none else capture 2 none
    else capture 32 none

-- The unarmed part: the average first, then the entry into calibration.
unfoldable pub housekeeping : TransferState → List ℕ → Call → ℕ → TransferState × Option (ℕ × ℕ) × ℕ
housekeeping s edges k quiet =
    let a = average_frames s edges k.dshot_mode quiet in
    let c = burst_entry a.0 k.adjusted_input k.disable_stick_cal quiet in
    if k.armed then (s, none, quiet) else (c.0, a.1, c.1)

unfoldable pub process :
    Platform → TransferState → List ℕ → Call → ℕ → TransferState × TransferActions × ℕ
process p s edges k quiet =
    let d = detection p s (detect_input edges) in
    let i = input_stage s edges k quiet in
    let t = burst_idle i.0.0 k.armed k.dshot_mode k.dshot_telemetry k.input_pin_high in
    let h = housekeeping t edges k i.2 in
    if k.input_set
    then (
      h.0,
      record {
        action = i.1;
        next_capture = next_capture_of k;
        frametime = h.1;
        bidir_detected = i.0.1;
      },
      h.2,
    )
    else (d.0, d.1, quiet)

-- The detection stage of `process_packet`.
unfoldable pub packet_detection : TransferState → ℕ → TransferState × TransferActions
packet_detection s packet = reported (capture 32 none) (capture 32 none) (
    confirm_protocol s (
      if is_valid_frame (unpack packet false) || is_valid_frame (unpack packet true)
      then some dshot
      else none))

unfoldable pub process_packet : TransferState → ℕ → Call → ℕ → TransferState × TransferActions × ℕ
process_packet s packet k quiet =
    let d = packet_detection s packet in
    let frame = unpack packet k.dshot_telemetry in
    let b = bidir_probe s frame k.armed k.dshot_telemetry k.input_pin_high (unpack packet true) in
    let t = idle_high_count b.0 k.armed true k.dshot_telemetry k.input_pin_high in
    let c = calibration_entry t k.adjusted_input k.disable_stick_cal quiet in
    if k.input_set
    then (
      if k.armed then t else c.0,
      record {
        action = frame_action frame;
        next_capture = capture 32 none;
        frametime = none;
        bidir_detected = b.1;
      },
      if k.armed then quiet else c.1,
    )
    else (d.0, d.1, quiet)
