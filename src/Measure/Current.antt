-- ===== src/Measure/Current.antt =====
-- rm32/src/current.rs: the moving average over 50 readings with its running total, and the charge
-- that main integrates over control ticks.
pub mod Window
pub mod Charge
use rm.Prelude.{
  ℕ, ◌+◌, ◌*◌, ◌/◌, Bool, ◌||◌, List, leb, ◌==◌, if◌then◌else◌, u16, u32, sub32, get_or, set,
  replicate, min_of,
}
use rm.Prelude.Int.{ℤ, pos, pos_part, leb_ℤ}
use rm.Platform.{Platform}

abbrev pub num_readings : ℕ
num_readings = 50

pub record CurrentFilter : Type 0 where
  pub readings : List ℕ
  pub index : ℕ
  pub total : ℕ

unfoldable pub new_filter : CurrentFilter
new_filter = record { readings = replicate 50 0; index = 0; total = 0 }

unfoldable pub update_current : CurrentFilter → ℕ → CurrentFilter × ℕ
update_current f raw =
    let total = u32 (sub32 f.total (get_or f.readings f.index 0) + raw) in
    let next = f.index + 1 in
    (
      record {
        readings = set f.readings f.index raw;
        index = if leb num_readings next then 0 else next;
        total = total;
      },
      u16 (total / num_readings),
    )

-- The u64 quantities stay below 2 ^ 64 for u32 arguments and are kept exact.
abbrev pub ticks_per_mah : Platform → ℕ
ticks_per_mah p = 360 * p.tick_hz

abbrev pub max_charge : Platform → ℕ
max_charge p = 65535 * ticks_per_mah p

unfoldable pub accumulate : Platform → ℕ → ℤ → ℕ → ℕ
accumulate p centiamp_ticks current elapsed_ticks =
    if elapsed_ticks == 0 || leb_ℤ current (pos 0) || centiamp_ticks == max_charge p
    then centiamp_ticks
    else min_of (centiamp_ticks + pos_part current * elapsed_ticks) (max_charge p)

unfoldable pub milliamp_hours : Platform → ℕ → ℕ
milliamp_hours p centiamp_ticks = u16 (centiamp_ticks / ticks_per_mah p)
