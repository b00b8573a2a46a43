-- ===== src/Motor/Commutation/Intervals.antt =====
-- The running sum of rm32/src/commutation.rs equals the sum of the recorded intervals.
use rm.Prelude.{
  ℕ, ◌+◌, ◌<◌, ◌≡◌, refl, ap, ◌∙◌, List, arith, length, get_or, set, length-set, u32, sub32,
}
use rm.Prelude.Sums.{sum, AllU16, sum-set, get_or-le-sum, sum-le, set-AllU16}
use rm.Platform.{Platform, six_intervals_to_us}
use rm.Motor.Commutation.{Commutation, slot, new, record_interval}

-- Eight u16 slots, and a sum that is theirs.
pub record IsSummed (c : Commutation) : Type 0 where
  pub size : length c.intervals ≡ 8
  pub words : AllU16 c.intervals
  pub summed : c.interval_sum ≡ sum c.intervals

pub new-IsSummed : IsSummed new
unfolding new sum
new-IsSummed = record { size = refl; words = omega arith; summed = refl }

total :
    (xs : List ℕ) (i v : ℕ)
    → length xs ≡ 8
    → AllU16 xs
    → i < 8
    → v < 65536
    → u32 (sub32 (sum xs) (get_or xs i 0) + v) ≡ sum (set xs i v)
total xs i v size words hi hv =
    omega (arith, sum-set xs i v (omega arith), get_or-le-sum xs i, sum-le xs words)

-- Recording an interval keeps the sum equal to that of the slots, although it is updated by one
-- difference, and what it returns is the electrical period of the new slots.
pub record_interval-IsSummed :
    (p : Platform) (c : Commutation) (v : ℕ)
    → IsSummed c
    → v < 65536
    → IsSummed (record_interval p c v).0
      × ((record_interval p c v).0.intervals ≡ set c.intervals (slot c) v)
      × ((record_interval p c v).1
          ≡ six_intervals_to_us p (sum (record_interval p c v).0.intervals))
unfolding record_interval
record_interval-IsSummed p c v s hv = (
  record {
    size = length-set c.intervals (slot c) v ∙ s.size;
    words = set-AllU16 c.intervals (slot c) v s.words hv;
    summed = new_sum;
  },
  refl,
  ap (six_intervals_to_us p) new_sum,
)
  where
    new_sum :
        u32 (sub32 c.interval_sum (get_or c.intervals (slot c) 0) + v)
        ≡ sum (set c.intervals (slot c) v)
    new_sum = rw s.summed (total c.intervals (slot c) v s.size s.words (omega arith) hv)
