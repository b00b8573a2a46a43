-- ===== src/Examples/TransferDetection.antt =====
-- Runs of the theorems of Transfer.Detection on concrete inputs.
use rm.Examples.Data.{board, burst, first_call, receiver}
use rm.Prelude.{none, refl, some, ◌↔◌, ◌≡◌}
use rm.Signal.{detect_input}
use rm.Transfer.{process}
use rm.Transfer.Detection.{detection_twice}
use rm.Transfer.Steps.{DetectedProtocol, TransferAction, protocol_of}

detection_twice_example :
    let r = process board receiver burst first_call 0 in
    let found = protocol_of (detect_input burst) in
    ((r.1.action ≡ TransferAction.input_detected DetectedProtocol.dshot) ↔ (
      (found ≡ some DetectedProtocol.dshot)
      × (receiver.pending_protocol ≡ some DetectedProtocol.dshot)))
    × (r.1.action ≡ TransferAction.input_detected DetectedProtocol.dshot
        → r.0.pending_protocol ≡ none)
    × (r.1.action ≡ TransferAction.no_action → r.0.pending_protocol ≡ found)
detection_twice_example =
    detection_twice board receiver burst first_call 0 DetectedProtocol.dshot refl
