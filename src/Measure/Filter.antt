-- ===== src/Measure/Filter.antt =====
-- rm32/src/filter.rs: the exponentially weighted average. The state is the bits of a Q16.16 number of
-- the crate `fixed`; its conversions are parameters, with their documented values as laws.
pub mod Range
use rm.Prelude.{ℕ, ◌+◌, ◌-◌, ◌*◌, ◌/◌, ◌^◌, ◌≡◌, Bool, true, false, if◌then◌else◌, u32, sub32, shr}

pub record FixedPoint : Type 0 where
  pub from_num : ℕ → ℕ
  pub to_num : ℕ → ℕ

-- What `U16F16` documents: 16 fractional bits, and truncation.
pub record IsU16F16 (fixed : FixedPoint) : Type 0 where
  pub scaled : (n : ℕ) → fixed.from_num n ≡ n * 65536
  pub truncated : (bits : ℕ) → fixed.to_num bits ≡ bits / 65536

pub record EwmaPow2 : Type 0 where
  pub bits : ℕ
  pub initialized : Bool

unfoldable pub new_ewma : EwmaPow2
new_ewma = record { bits = 0; initialized = false }

unfoldable pub update_ewma : FixedPoint → ℕ → EwmaPow2 → ℕ → EwmaPow2 × ℕ
update_ewma fixed k f sample =
    let drop = shr (u32 (f.bits + (2 ^ k - 1))) k in
    let next = u32 (sub32 f.bits drop + u32 (sample * 2 ^ (16 - k))) in
    if f.initialized
    then (record f { bits = next }, fixed.to_num next)
    else (record { bits = fixed.from_num sample; initialized = true }, sample)
