-- ===== src/Examples/SharedQueueFifo.antt =====
-- Runs of the theorems of Shared.Queue.Fifo on concrete inputs.
use rm.Examples.Motors.{two_writes}
use rm.Prelude.{arith, not, refl, u8, ◌/◌, ◌||◌, ◌≡◌}
use rm.Shared.Queue.{packed, pop_config_write, push_config_write}
use rm.Shared.Queue.Fifo.{IsQueue, contents, fifo_pop, fifo_push, queue_refines_fifo}

queue_refines_fifo_example :
    (IsQueue (push_config_write two_writes 20 7).0
      × ((contents (push_config_write two_writes 20 7).0, (push_config_write two_writes 20 7).1)
          ≡ fifo_push (contents two_writes) (packed 20 7)))
    × (IsQueue (pop_config_write two_writes).0
        × ((contents (pop_config_write two_writes).0, (pop_config_write two_writes).1)
            ≡ fifo_pop (contents two_writes)))
    × ((push_config_write two_writes 20 7).0.overflow
        ≡ (two_writes.overflow || not (push_config_write two_writes 20 7).1))
    × (u8 (packed 20 7 / 256) ≡ 20)
    × (u8 (packed 20 7) ≡ 7)
queue_refines_fifo_example =
    queue_refines_fifo two_writes 20 7
      (record { size = refl; head_in = omega arith; tail_in = omega arith }) (omega arith)
      (omega arith)
