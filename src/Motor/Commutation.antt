-- ===== src/Motor/Commutation.antt =====
-- rm32/src/commutation.rs: the six-step sector, its direction and edge flags, and the per-step
-- intervals with their running sum. A method that mutates `self` returns the new record.
pub mod Steps
pub mod Intervals
use rm.Prelude.{
  ℕ, ◌+◌, ◌%◌, Bool, true, false, not, List, [], ◌∷◌, ltb, leb, ◌==◌, if◌then◌else◌, u8, u32, sub32,
  get_or, set, replicate,
}
use rm.Prelude.Int.{ℤ}
use rm.Platform.{Platform, six_intervals_to_us}

pub record Commutation : Type 0 where
  pub step : ℕ
  pub forward : Bool
  pub rising : Bool
  pub desync_check : Bool
  pub intervals : List ℕ
  pub interval_sum : ℕ

unfoldable pub new : Commutation
new = record {
  step = 1;
  forward = true;
  rising = true;
  desync_check = false;
  intervals = replicate 8 0;
  interval_sum = 0;
}

abbrev pub is_even : ℕ → Bool
is_even n = n % 2 == 0

-- `(self.step.wrapping_sub(1) & 7) as usize`
abbrev pub slot : Commutation → ℕ
slot c = u8 (c.step + 255) % 8

unfoldable pub record_interval : Platform → Commutation → ℕ → Commutation × ℤ
record_interval p c commutation_interval =
    let old = get_or c.intervals (slot c) 0 in
    let total = u32 (sub32 c.interval_sum old + commutation_interval) in
    (
      record c { intervals = set c.intervals (slot c) commutation_interval; interval_sum = total },
      six_intervals_to_us p total,
    )

advance_forward : Commutation → Commutation
advance_forward c =
    let up = u8 (c.step + 1) in
    let wrapped = ltb 6 up in
    let step = if wrapped then 1 else up in
    record c {
      step = step;
      desync_check = if wrapped then true else c.desync_check;
      rising = not (is_even step);
    }

advance_backward : Commutation → Commutation
advance_backward c =
    let down = u8 (c.step + 255) in
    let wrapped = ltb down 1 in
    let step = if wrapped then 6 else down in
    record c {
      step = step;
      desync_check = if wrapped then true else c.desync_check;
      rising = is_even step;
    }

unfoldable pub advance : Commutation → Commutation
unfolding advance_forward advance_backward
advance c = if c.forward then advance_forward c else advance_backward c

-- `v.clamp(1, 6)`
clamp_step : ℕ → ℕ
clamp_step v = if ltb v 1 then 1 else if ltb 6 v then 6 else v

unfoldable pub set_step : Commutation → ℕ → Commutation
unfolding clamp_step
set_step c v =
    let s = clamp_step v in
    record c { step = s; rising = if c.forward then not (is_even s) else is_even s }

unfoldable pub set_forward : Commutation → Bool → Commutation
set_forward c v = record c { forward = v }

unfoldable pub set_desync_check : Commutation → Bool → Commutation
set_desync_check c v = record c { desync_check = v }
