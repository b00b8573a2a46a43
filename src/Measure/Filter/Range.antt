-- ===== src/Measure/Filter/Range.antt =====
-- The average stays within the range of what it has seen.
use rm.Prelude.{ℕ, ◌+◌, ◌*◌, ◌≤◌, u32, sub32, shr, arith}
use rm.Measure.Filter.{FixedPoint, IsU16F16, EwmaPow2, update_ewma}

next_within :
    (bits sample low high : ℕ)
    → high ≤ 65535
    → low * 65536 ≤ bits
    → bits ≤ high * 65536
    → low ≤ sample
    → sample ≤ high
    → (low * 65536 ≤ u32 (sub32 bits (shr (u32 (bits + 7)) 3) + u32 (sample * 8192)))
      × (u32 (sub32 bits (shr (u32 (bits + 7)) 3) + u32 (sample * 8192)) ≤ high * 65536)
next_within bits sample low high hh hl hb sl sh = omega arith

-- The filter of the battery voltage (eight readings of weight) never leaves the range in which its
-- state and the new reading lie: its 32-bit arithmetic neither wraps nor overshoots.
pub update_ewma_range :
    (fixed : FixedPoint) (f : EwmaPow2) (sample low high : ℕ)
    → IsU16F16 fixed
    → high ≤ 65535
    → low * 65536 ≤ f.bits
    → f.bits ≤ high * 65536
    → low ≤ sample
    → sample ≤ high
    → (low * 65536 ≤ (update_ewma fixed 3 f sample).0.bits)
      × ((update_ewma fixed 3 f sample).0.bits ≤ high * 65536)
      × (low ≤ (update_ewma fixed 3 f sample).1)
      × ((update_ewma fixed 3 f sample).1 ≤ high)
unfolding update_ewma
update_ewma_range fixed f sample low high laws hh hl hb sl sh =
    let (above, below) = next_within f.bits sample low high hh hl hb sl sh in
    let next = u32 (sub32 f.bits (shr (u32 (f.bits + 7)) 3) + u32 (sample * 8192)) in
    let out = laws.truncated next in let first = laws.scaled sample in ground arith
