-- ===== src/Measure/Current/Window.antt =====
-- The running total of the current window is the sum of its readings.
use rm.Prelude.{ℕ, ◌/◌, ◌<◌, ◌≡◌, refl, arith, length, length-set, set}
use rm.Prelude.Sums.{sum, AllU16, sum-set, get_or-le-sum, sum-le, set-AllU16}
use rm.Measure.Current.{CurrentFilter, new_filter, update_current}

pub record IsWindow (f : CurrentFilter) : Type 0 where
  pub size : length f.readings ≡ 50
  pub words : AllU16 f.readings
  pub inside : f.index < 50
  pub summed : f.total ≡ sum f.readings

pub new_filter-IsWindow : IsWindow new_filter
unfolding new_filter sum
new_filter-IsWindow = record {
  size = refl;
  words = omega arith;
  inside = omega arith;
  summed = refl;
}

-- A new reading keeps 50 readings of 16 bits, an index among them and a total that is their sum; the
-- value returned is the mean of the window that has the new reading in place of the oldest one.
pub update_current-IsWindow :
    (f : CurrentFilter) (raw : ℕ)
    → IsWindow f
    → raw < 65536
    → IsWindow (update_current f raw).0
      × ((update_current f raw).1 ≡ sum (set f.readings f.index raw) / 50)
unfolding update_current
update_current-IsWindow f raw h hr =
    let change = sum-set f.readings f.index raw (omega (arith, h.size, h.inside)) in
    let old = get_or-le-sum f.readings f.index in
    let words = set-AllU16 f.readings f.index raw h.words hr in
    let before = sum-le f.readings h.words in
    let after = sum-le (set f.readings f.index raw) words in
    let size = length-set f.readings f.index raw in
    let stored = h.size in
    let summed = h.summed in
    (
      record {
        size = omega arith;
        words = words;
        inside = (let i = h.inside in ground arith);
        summed = omega arith;
      },
      omega arith,
    )
