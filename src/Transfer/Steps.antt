-- ===== src/Transfer/Steps.antt =====
-- rm32/src/transfer.rs: the state of the dispatcher, the helpers of `process_packet`, and the steps
-- of `process` that have no counterpart there. What `process` writes out again stands in
-- Transfer.Burst, except for the text of `confirm_protocol`, which the model calls in both.
use rm.Prelude.{
  ℕ, ◌+◌, ◌-◌, ◌/◌, Bool, true, false, not, ◌&&◌, List, Option, none, some, ltb, leb, ◌==◌,
  if◌then◌else◌, u8, u16, u32, sub32, shr, sat_add8, get_or, length,
}
use rm.Prelude.Int.{pos}
use rm.Arith.Map.{get_abs_dif}
use rm.Platform.{Platform}
use rm.Constants.{
  bidir_confirm_frames, bidir_idle_high_frames, calibration_entry_count, calibration_min_throttle,
  calibration_max_jitter,
}
use rm.Dshot.Frame.{DshotFrame}
use rm.Signal.{SignalType}
use rm.Servo.{ServoState, ServoResult}

pub data DetectedProtocol : Type 0 where
  dshot servo : DetectedProtocol

pub record TransferState : Type 0 where
  pub servo_state : ServoState
  pub average_count : ℕ
  pub average_packet_length : ℕ
  pub enter_calibration_count : ℕ
  pub last_input : ℕ
  pub high_pin_count : ℕ
  pub bidir_confirms : ℕ
  pub pending_protocol : Option DetectedProtocol

pub data TransferAction : Type 0 where
  no_action : TransferAction
  input_detected : DetectedProtocol → TransferAction
  dshot_throttle : ℕ → Bool → TransferAction
  dshot_command : ℕ → Bool → TransferAction
  servo_throttle : ℕ → TransferAction
  servo_calibrating : TransferAction
  servo_calibration_done : ℕ → ℕ → TransferAction

pub record CaptureConfig : Type 0 where
  pub edges_per_burst : ℕ
  pub prescaler : Option ℕ

abbrev pub capture : ℕ → Option ℕ → CaptureConfig
capture n p = record { edges_per_burst = n; prescaler = p }

pub record TransferActions : Type 0 where
  pub action : TransferAction
  pub next_capture : CaptureConfig
  pub frametime : Option (ℕ × ℕ)
  pub bidir_detected : Bool

abbrev pub actions : TransferAction → CaptureConfig → TransferActions
actions a c = record { action = a; next_capture = c; frametime = none; bidir_detected = false }

abbrev same_protocol : DetectedProtocol → DetectedProtocol → Bool
same_protocol dshot dshot = true
same_protocol servo servo = true
same_protocol _ _ = false

abbrev confirms : Option DetectedProtocol → Option DetectedProtocol → Bool
confirms (some a) (some b) = same_protocol a b
confirms _ _ = false

unfoldable pub confirm_protocol :
    TransferState → Option DetectedProtocol → TransferState × Option DetectedProtocol
confirm_protocol s protocol =
    if confirms protocol s.pending_protocol
    then (record s { pending_protocol = none }, protocol)
    else (record s { pending_protocol = protocol }, none)

unfoldable pub protocol_of : SignalType → Option DetectedProtocol
protocol_of SignalType.dshot600 = some dshot
protocol_of SignalType.dshot300 = some dshot
protocol_of SignalType.dshot150 = some dshot
protocol_of SignalType.servo_pwm = some servo
protocol_of SignalType.no_signal = none

-- The capture for a confirmed protocol; the source marks the last arm unreachable.
unfoldable pub capture_of : Platform → SignalType → CaptureConfig
capture_of p SignalType.dshot600 = capture 32 (some 0)
capture_of p SignalType.dshot300 = capture 32 (some 1)
capture_of p SignalType.dshot150 = capture 32 (some 3)
capture_of p SignalType.servo_pwm = capture 2 (some (u16 (p.capture_hz / 1000000 - 1)))
capture_of p SignalType.no_signal = capture 32 (some (u16 (p.capture_hz / 6000000)))

-- `CaptureConfig::dshot_detection`.
abbrev dshot_detection : Platform → CaptureConfig
dshot_detection p = capture 32 (some (u16 (p.capture_hz / 6000000)))

-- The detection stage of `process`.
abbrev pub reported :
    CaptureConfig
    → CaptureConfig
    → TransferState × Option DetectedProtocol
    → TransferState × TransferActions
reported accepted waiting (t, some protocol) = (t, actions (input_detected protocol) accepted)
reported accepted waiting (t, none) = (t, actions no_action waiting)

unfoldable pub detection : Platform → TransferState → SignalType → TransferState × TransferActions
detection p s signal =
    reported (capture_of p signal) (dshot_detection p) (confirm_protocol s (protocol_of signal))

unfoldable pub is_valid_frame : DshotFrame → Bool
is_valid_frame (DshotFrame.throttle v t) = true
is_valid_frame (DshotFrame.command c t) = true
is_valid_frame _ = false

unfoldable pub bidir_probe :
    TransferState → DshotFrame → Bool → Bool → Bool → DshotFrame → TransferState × Bool
bidir_probe s frame armed telemetry pin_high inverted =
    let confirms = sat_add8 s.bidir_confirms 1 in
    if not armed && not telemetry && pin_high && leb bidir_idle_high_frames s.high_pin_count
    then if is_valid_frame inverted
      then (record s { bidir_confirms = confirms }, leb bidir_confirm_frames confirms)
      else (
        record s {
          bidir_confirms = 0;
          high_pin_count = (if is_valid_frame frame then 0 else s.high_pin_count);
        },
        false,
      )
    else (s, false)

unfoldable pub idle_high_count : TransferState → Bool → Bool → Bool → Bool → TransferState
idle_high_count s armed dshot_mode telemetry pin_high =
    if not armed && dshot_mode && not telemetry && pin_high
    then record s { high_pin_count = sat_add8 s.high_pin_count 1 }
    else record s { high_pin_count = 0; bidir_confirms = 0 }

-- The stick position is kept high and steady: the count, or its restart.
abbrev steady_count : TransferState → ℕ → ℕ
steady_count s adjusted =
    if ltb calibration_max_jitter (get_abs_dif (pos adjusted) (pos s.last_input))
    then 0
    else u8 (s.enter_calibration_count + 1)

unfoldable pub calibration_entry : TransferState → ℕ → Bool → ℕ → TransferState × ℕ
calibration_entry s adjusted disabled zero_count =
    let steady = steady_count s adjusted in
    let enters = ltb calibration_entry_count steady && not s.servo_state.high_calibration_set in
    if adjusted == 0 && not s.servo_state.calibration_required
    then (s, u16 (zero_count + 1))
    else if disabled
    then (s, zero_count)
    else if ltb calibration_min_throttle adjusted
    then (
      record s {
        enter_calibration_count = (if enters then 0 else steady);
        servo_state =
            (if enters
              then record s.servo_state { calibration_required = true }
              else s.servo_state);
        last_input = adjusted;
      },
      0,
    )
    else (s, 0)

unfoldable pub frame_action : DshotFrame → TransferAction
frame_action (DshotFrame.throttle v t) = dshot_throttle v t
frame_action (DshotFrame.command c t) = dshot_command c t
frame_action _ = no_action

-- The frame-time average over eight unarmed frames.
unfoldable pub average_frames : TransferState → List ℕ → Bool → ℕ → TransferState × Option (ℕ × ℕ)
average_frames s edges dshot_mode zero_count =
    let count = u8 (s.average_count + 1) in
    let width = u16 (sub32 (get_or edges 31 0) (get_or edges 0 0)) in
    let total =
      if leb 32 (length edges)
      then u32 (s.average_packet_length + width)
      else s.average_packet_length in
    let mean = shr total 3 in
    let margin = shr total 7 in
    if dshot_mode && ltb s.average_count 8 && ltb 5 zero_count
    then (
      record s { average_count = count; average_packet_length = total },
      if count == 8 then some (u16 (mean - margin), u16 (mean + margin)) else none,
    )
    else (s, none)

-- The servo arm: state, action, and the counter of zero inputs.
unfoldable pub servo_action :
    TransferState → ServoState × ServoResult → ℕ → TransferState × TransferAction × ℕ
servo_action s (v, ServoResult.throttle t) quiet =
    (record s { servo_state = v }, servo_throttle t, quiet)
servo_action s (v, ServoResult.out_of_range) quiet = (record s { servo_state = v }, no_action, 0)
servo_action s (v, ServoResult.calibrating) quiet =
    (record s { servo_state = v }, servo_calibrating, quiet)
servo_action s (v, ServoResult.calibration_high_done) quiet =
    (record s { servo_state = v }, servo_calibrating, quiet)
servo_action s (v, ServoResult.calibration_done l h) quiet =
    (record s { servo_state = v }, servo_calibration_done l h, quiet)
