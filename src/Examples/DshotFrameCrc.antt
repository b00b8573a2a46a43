-- ===== src/Examples/DshotFrameCrc.antt =====
-- Runs of the theorems of Dshot.Frame.Crc on concrete inputs.
use rm.Dshot.Frame.{command, frame_of, throttle, unpack}
use rm.Dshot.Frame.Crc.{packet, unpack-packet}
use rm.Prelude.{false, if◌then◌else◌, ltb, true, ◌==◌, ◌≡◌}

unpack-packet_example :
    (unpack (packet 1046 true false) false ≡ frame_of 1046 true)
    × (frame_of 1046 true ≡ (
        if 1046 == 0
        then throttle 0 true
        else if ltb 1046 48
        then command 1046 true
        else throttle 1046 true))
unpack-packet_example = unpack-packet 1046 true false
