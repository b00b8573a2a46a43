-- ===== src/Examples/TransferPaths.antt =====
-- Runs of the theorems of Transfer.Paths on concrete inputs.
use rm.Examples.Data.{board, burst, dshot_call, receiver}
use rm.Prelude.{arith, refl, take}
use rm.Transfer.{process, process_packet}
use rm.Transfer.Paths.{Agree, packet_of, process-process_packet}

process-process_packet_example :
    let a = process board receiver burst dshot_call 0 in
    let b = process_packet receiver (packet_of (take 32 burst)) dshot_call 0 in Agree a b
process-process_packet_example =
    process-process_packet board receiver burst dshot_call 0 refl refl refl (omega arith)
      (omega arith) (omega arith)
