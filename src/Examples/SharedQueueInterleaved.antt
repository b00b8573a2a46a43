-- ===== src/Examples/SharedQueueInterleaved.antt =====
-- Runs of the theorems of Shared.Queue.Interleaved on concrete inputs.
use rm.Examples.Motors.{mid_pop}
use rm.Prelude.{arith, length, ◌++◌, ◌≡◌, ◌≤◌}
use rm.Shared.Queue.{empty_queue}
use rm.Shared.Queue.Fifo.{IsQueue, contents}
use rm.Shared.Queue.Interleaved.{interleaved_fifo}
use rm.Shared.Queue.Steps.{find_room, here, later, load_head, load_tail, store_head, store_slot}

interleaved_fifo_example :
    (mid_pop.sent ≡ mid_pop.received ++ contents mid_pop.queue)
    × (length (contents mid_pop.queue) ≤ 8)
    × IsQueue mid_pop.queue
unfolding empty_queue
interleaved_fifo_example = interleaved_fifo mid_pop (
    later
      (later (later (later (later here (load_head 2600)) (find_room (ground arith))) store_slot)
        store_head)
      load_tail)
