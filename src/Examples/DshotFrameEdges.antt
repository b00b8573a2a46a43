-- ===== src/Examples/DshotFrameEdges.antt =====
-- Runs of the theorems of Dshot.Frame.Edges on concrete inputs.
use rm.Dshot.Frame.{decode_frame, frame_time, unpack}
use rm.Dshot.Frame.Edges.{bits, decode_frame-waveform, waveform}
use rm.Prelude.{arith, false, ◌≡◌}

decode_frame-waveform_example :
    let edges = waveform 100 100 70 30 (bits 16 1000) in
    let time = frame_time edges in decode_frame edges 1000 2000 false ≡ unpack 1000 false
unfolding bits
decode_frame-waveform_example =
    decode_frame-waveform 100 100 70 30 1000 2000 1000 false (omega arith) (omega arith)
      (omega arith) (omega arith) (omega arith) (omega arith)
