-- ===== src/Measure/Units.antt =====
-- rm32/src/units.rs: centivolts, centiamps, degrees and ADC counts as plain numbers.
pub mod Saturation
use rm.Prelude.{
  ℕ, ◌+◌, ◌-◌, ◌*◌, ◌/◌, Bool, true, false, not, ◌&&◌, ◌||◌, ltb, leb, ◌==◌, if◌then◌else◌, u16,
  u32, min_of,
}
use rm.Prelude.Int.{
  ℤ, pos, negsuc, pos_part, neg_part, sub_ℕ, ◌+ℤ◌, ◌-ℤ◌, ◌*ℤ◌, neg, ltb_ℤ, leb_ℤ, quot, i16, i32,
}
use rm.Arith.Map.{eq_ℤ}

unfoldable pub below_cell_threshold : ℕ → ℕ → ℕ → Bool
below_cell_threshold voltage cell_count per_cell_cv =
    let threshold = cell_count * per_cell_cv in ltb 0 threshold && ltb voltage threshold

-- `CentiAmps::to_centiamps`: a negative reading is zero.
unfoldable pub unsigned_centiamps : ℤ → ℕ
unsigned_centiamps ca = pos_part ca

unfoldable pub to_erpm_100 : ℕ → ℕ
to_erpm_100 ticks = if ticks == 0 then 0 else u16 (600000 / ticks)

unfoldable pub to_centivolts : ℕ → ℕ → ℕ
to_centivolts raw voltage_divider_x100 =
    u16 (u32 (min_of (u32 (raw * voltage_divider_x100)) 81322978 * 11) / 13650)

-- `diff.unsigned_abs()`
abbrev unsigned_abs : ℤ → ℕ
unsigned_abs a = pos_part a + neg_part a

-- The magnitude, and its sign put back.
unfoldable pub to_centiamps : ℕ → ℤ → ℕ → ℤ
to_centiamps raw current_offset_mv mv_per_amp =
    let diff = i32 (i32 (pos raw *ℤ pos 220) -ℤ i32 (current_offset_mv *ℤ pos 273)) in
    let mag = min_of (u32 (unsigned_abs diff * 100) / u32 (273 * mv_per_amp)) 32768 in
    let ca = if ltb_ℤ diff (pos 0) then neg (pos mag) else pos mag in
    let high = if ltb_ℤ (pos 32767) ca then pos 32767 else ca in
    if mv_per_amp == 0 then pos 0 else high
