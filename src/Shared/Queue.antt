-- ===== src/Shared/Queue.antt =====
-- The configuration write queue of rm32/src/shared_state.rs: nine slots of packed words between the
-- input interrupt, which pushes, and the main loop, which pops. The functions are a call from start
-- to end; Queue.Steps takes a call apart into its loads and stores.
pub mod Fifo
pub mod Steps
pub mod Interleaved
use rm.Prelude.{
  ℕ, ◌+◌, ◌*◌, ◌/◌, ◌%◌, Bool, true, false, Option, none, some, List, ◌!=◌, ◌==◌, if◌then◌else◌, u8,
  get_or, set, replicate,
}

-- `CONFIG_WRITE_QUEUE_LEN`
abbrev pub queue_len : ℕ
queue_len = 9

pub record Queue : Type 0 where
  pub slots : List ℕ
  pub head : ℕ
  pub tail : ℕ
  pub overflow : Bool

unfoldable pub empty_queue : Queue
empty_queue = record { slots = replicate 9 0; head = 0; tail = 0; overflow = false }

-- `((offset as u16) << 8) | value as u16`, whose halves do not meet.
abbrev pub packed : ℕ → ℕ → ℕ
packed offset value = offset * 256 + value

abbrev pub next_index : ℕ → ℕ
next_index i = (i + 1) % queue_len

unfoldable pub push_config_write : Queue → ℕ → ℕ → Queue × Bool
push_config_write q offset value =
    if next_index q.head != q.tail
    then (
      record q { slots = set q.slots q.head (packed offset value); head = next_index q.head },
      true,
    )
    else (record q { overflow = true }, false)

unfoldable pub pop_config_write : Queue → Queue × Option (ℕ × ℕ)
pop_config_write q =
    let word = get_or q.slots q.tail 0 in
    if q.tail == q.head
    then (q, none)
    else (record q { tail = next_index q.tail }, some (u8 (word / 256), u8 word))

unfoldable pub clear_config_write_overflow : Queue → Queue
clear_config_write_overflow q = record q { overflow = false }
