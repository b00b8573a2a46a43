-- ===== src/Measure/Units/Saturation.antt =====
-- What the conversions promise over all readings.
use rm.Prelude.{ℕ, ◌*◌, ◌/◌, ◌≤◌, ◌≡◌, min_of, arith}
use rm.Measure.Units.{to_centivolts}

product-le : (a b : ℕ) → a ≤ 65535 → b ≤ 65535 → a * b ≤ 65535 * 65535
product-le a b ha hb = grind arith

-- For every count and divider of 16 bits, the conversion that clamps its product to stay in 32 bits
-- equals the exact quotient, saturated at 65535 centivolts.
pub to_centivolts_exact :
    (raw voltage_divider_x100 : ℕ)
    → raw ≤ 65535
    → voltage_divider_x100 ≤ 65535
    → to_centivolts raw voltage_divider_x100
      ≡ min_of (raw * voltage_divider_x100 * 11 / 13650) 65535
unfolding to_centivolts
to_centivolts_exact raw divider hr hd = let bound = product-le raw divider hr hd in ground arith
