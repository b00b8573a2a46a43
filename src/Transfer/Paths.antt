-- ===== src/Transfer/Paths.antt =====
-- The two entries of rm32/src/transfer.rs agree on DShot.
use rm.Prelude.{
  ℕ, ◌≤◌, ◌<◌, ◌≡◌, arith, Bool, true, false, leb, List, none, length, if◌then◌else◌, take, shr,
  refl, ap, sym, ◌∙◌, Bool-cases, inl, inr,
}
use rm.Platform.{Platform}
use rm.Dshot.Frame.{decode_frame, unpack, pulses, frame_time}
use rm.Signal.{detect_input}
use rm.Transfer.{
  packet_detection, Call, process, process_packet, input_stage, housekeeping, next_capture_of,
}
use rm.Transfer.Burst.{burst_idle}
use rm.Transfer.Burst.Copies.{
  burst_probe-bidir_probe, burst_action-frame_action, burst_idle-idle_high_count,
  burst_entry-calibration_entry,
}
use rm.Transfer.Steps.{
  TransferState, TransferActions, bidir_probe, idle_high_count, calibration_entry, average_frames,
  frame_action, capture, TransferAction, detection,
}

-- The packet that a burst carries.
abbrev pub packet_of : List ℕ → ℕ
packet_of edges = pulses (shr (frame_time edges) 5) 0 edges

-- A state without its frame-time average, which a sliced packet cannot have.
abbrev pub without_average : TransferState → TransferState
without_average s = record s { average_count = 0; average_packet_length = 0 }

decoded :
    (edges : List ℕ) (low high : ℕ) (telemetry : Bool)
    → low < frame_time edges
    → frame_time edges < high
    → decode_frame edges low high telemetry ≡ unpack (packet_of edges) telemetry
unfolding decode_frame
decoded edges low high telemetry h k = ground arith

abbrev with_average : ℕ → ℕ → TransferState → TransferState
with_average n total s = record s { average_count = n; average_packet_length = total }

entry-with_average :
    (n total : ℕ) (s : TransferState) (adjusted : ℕ) (disabled : Bool) (quiet : ℕ)
    → calibration_entry (with_average n total s) adjusted disabled quiet ≡ (
      with_average n total (calibration_entry s adjusted disabled quiet).0,
      (calibration_entry s adjusted disabled quiet).1,
    )
unfolding calibration_entry
entry-with_average n total s adjusted disabled quiet = ground arith

average-with_average :
    (s : TransferState) (edges : List ℕ) (dshot_mode : Bool) (quiet : ℕ)
    → let a = (average_frames s edges dshot_mode quiet).0 in
      a ≡ with_average a.average_count a.average_packet_length s
unfolding average_frames
average-with_average s edges dshot_mode quiet = ground arith

-- The unarmed housekeeping is the entry into calibration, as far as the average is left aside.
housekept :
    (s : TransferState) (edges : List ℕ) (k : Call) (quiet : ℕ)
    → let c = calibration_entry s k.adjusted_input k.disable_stick_cal quiet in
      let h = housekeeping s edges k quiet in
      (without_average h.0 ≡ without_average (if k.armed then s else c.0))
      × (h.2 ≡ (if k.armed then quiet else c.1))
unfolding housekeeping
housekept s edges k quiet =
    let a = (average_frames s edges k.dshot_mode quiet).0 in
    let e =
      burst_entry-calibration_entry a k.adjusted_input k.disable_stick_cal quiet
      ∙ ap (λ x. calibration_entry x k.adjusted_input k.disable_stick_cal quiet)
          (average-with_average s edges k.dshot_mode quiet)
      ∙ entry-with_average a.average_count a.average_packet_length s k.adjusted_input
          k.disable_stick_cal quiet in
    elim (Bool-cases k.armed) [
      | inl b ↦ rw (b) (refl, refl)
      | inr b ↦ rw (b) (ap (λ x. without_average x.0) e, ap (λ x. x.1) e)
    ]

long_enough : (edges : List ℕ) → 32 ≤ length edges → leb 32 (length edges) ≡ true
long_enough edges h = ground arith

staged_packet :
    (s : TransferState) (edges : List ℕ) (k : Call) (quiet : ℕ)
    → k.dshot_mode ≡ true
    → 32 ≤ length edges
    → k.frametime_low < frame_time (take 32 edges)
    → frame_time (take 32 edges) < k.frametime_high
    → let packet = packet_of (take 32 edges) in
      let frame = unpack packet k.dshot_telemetry in
      input_stage s edges k quiet ≡ (
        bidir_probe s frame k.armed k.dshot_telemetry k.input_pin_high (unpack packet true),
        frame_action frame,
        quiet,
      )
unfolding input_stage
staged_packet s edges k quiet hd hl lo up =
    rw
      (
        hd,
        long_enough edges hl,
        decoded (take 32 edges) k.frametime_low k.frametime_high k.dshot_telemetry lo up,
        decoded (take 32 edges) k.frametime_low k.frametime_high true lo up,
        burst_probe-bidir_probe s (unpack (packet_of (take 32 edges)) k.dshot_telemetry) k.armed
            k.dshot_telemetry k.input_pin_high (unpack (packet_of (take 32 edges)) true),
        burst_action-frame_action (unpack (packet_of (take 32 edges)) k.dshot_telemetry),
      )
      refl

no_servo : (k : Call) → k.servo_mode ≡ false → next_capture_of k ≡ capture 32 none
unfolding next_capture_of
no_servo k h = ground arith

-- `process` after its input stage, and `process_packet` after its probe.
abbrev finish :
    Call
    → List ℕ
    → (TransferState × Bool) × TransferAction × ℕ
    → TransferState × TransferActions × ℕ
finish k edges i =
    let t = burst_idle i.0.0 k.armed k.dshot_mode k.dshot_telemetry k.input_pin_high in
    let h = housekeeping t edges k i.2 in
    (
      h.0,
      record {
        action = i.1;
        next_capture = next_capture_of k;
        frametime = h.1;
        bidir_detected = i.0.1;
      },
      h.2,
    )

abbrev finish_packet :
    Call → TransferState × Bool → TransferAction → ℕ → TransferState × TransferActions × ℕ
finish_packet k b done quiet =
    let t = idle_high_count b.0 k.armed true k.dshot_telemetry k.input_pin_high in
    let c = calibration_entry t k.adjusted_input k.disable_stick_cal quiet in
    (
      if k.armed then t else c.0,
      record {
        action = done;
        next_capture = capture 32 none;
        frametime = none;
        bidir_detected = b.1;
      },
      if k.armed then quiet else c.1,
    )

process-finish :
    (p : Platform) (s : TransferState) (edges : List ℕ) (k : Call) (quiet : ℕ)
    → k.input_set ≡ true
    → process p s edges k quiet ≡ finish k edges (input_stage s edges k quiet)
unfolding process
process-finish p s edges k quiet h =
    let d = detection p s (detect_input edges) in
    ap (λ b. if b then finish k edges (input_stage s edges k quiet) else (d.0, d.1, quiet)) h

packet-finish :
    (s : TransferState) (packet : ℕ) (k : Call) (quiet : ℕ)
    → k.input_set ≡ true
    → let frame = unpack packet k.dshot_telemetry in
      process_packet s packet k quiet
      ≡ finish_packet k
          (bidir_probe s frame k.armed k.dshot_telemetry k.input_pin_high (unpack packet true))
          (frame_action frame)
          quiet
unfolding process_packet
packet-finish s packet k quiet h =
    let frame = unpack packet k.dshot_telemetry in
    let b = bidir_probe s frame k.armed k.dshot_telemetry k.input_pin_high (unpack packet true) in
    let d = packet_detection s packet in
    ap (λ x. if x then finish_packet k b (frame_action frame) quiet else (d.0, d.1, quiet)) h

-- Two results that agree but for the average.
abbrev pub Agree :
    TransferState × TransferActions × ℕ → TransferState × TransferActions × ℕ → Type 0
Agree a b =
    (a.1.action ≡ b.1.action)
    × (a.1.next_capture ≡ b.1.next_capture)
    × (a.1.bidir_detected ≡ b.1.bidir_detected)
    × (a.2 ≡ b.2)
    × (without_average a.0 ≡ without_average b.0)

finish-agrees :
    (k : Call) (edges : List ℕ) (b : TransferState × Bool) (done : TransferAction) (quiet : ℕ)
    → k.dshot_mode ≡ true
    → k.servo_mode ≡ false
    → Agree (finish k edges (b, done, quiet)) (finish_packet k b done quiet)
finish-agrees k edges b done quiet hd hs =
    let t = burst_idle b.0 k.armed k.dshot_mode k.dshot_telemetry k.input_pin_high in
    let idle =
      burst_idle-idle_high_count b.0 k.armed k.dshot_mode k.dshot_telemetry k.input_pin_high
      ∙ ap (λ m. idle_high_count b.0 k.armed m k.dshot_telemetry k.input_pin_high) hd in
    let h = housekept t edges k quiet in
    (
      refl,
      no_servo k hs,
      refl,
      h.1
          ∙ ap
              (λ x.
                if k.armed
                then quiet
                else (calibration_entry x k.adjusted_input k.disable_stick_cal quiet).1)
              idle,
      h.0
          ∙ ap
              (λ x. without_average (
                if k.armed
                then x
                else (calibration_entry x k.adjusted_input k.disable_stick_cal quiet).0))
              idle,
    )

-- A DShot burst of at least 32 edges whose frame time is inside the window is handled as its packet
-- is: with an input set, outside servo mode, `process` and `process_packet` agree on the action, the
-- next capture, the bidirectional flag, the caller's counter and all of the state but the frame-time
-- average.
pub process-process_packet :
    (p : Platform) (s : TransferState) (edges : List ℕ) (k : Call) (quiet : ℕ)
    → k.input_set ≡ true
    → k.dshot_mode ≡ true
    → k.servo_mode ≡ false
    → 32 ≤ length edges
    → k.frametime_low < frame_time (take 32 edges)
    → frame_time (take 32 edges) < k.frametime_high
    → let a = process p s edges k quiet in
      let b = process_packet s (packet_of (take 32 edges)) k quiet in Agree a b
process-process_packet p s edges k quiet hi hd hs hl lo up =
    let packet = packet_of (take 32 edges) in
    let frame = unpack packet k.dshot_telemetry in
    let b = bidir_probe s frame k.armed k.dshot_telemetry k.input_pin_high (unpack packet true) in
    let e =
      process-finish p s edges k quiet hi
      ∙ ap (finish k edges) (staged_packet s edges k quiet hd hl lo up) in
    let f = sym (packet-finish s packet k quiet hi) in
    let h = finish-agrees k edges b (frame_action frame) quiet hd hs in
    (
      ap (λ x. x.1.action) e ∙ (h.0 ∙ ap (λ x. x.1.action) f),
      ap (λ x. x.1.next_capture) e ∙ (h.1 ∙ ap (λ x. x.1.next_capture) f),
      ap (λ x. x.1.bidir_detected) e ∙ (h.2 ∙ ap (λ x. x.1.bidir_detected) f),
      ap (λ x. x.2) e ∙ (h.3 ∙ ap (λ x. x.2) f),
      ap (λ x. without_average x.0) e ∙ (h.4 ∙ ap (λ x. without_average x.0) f),
    )
