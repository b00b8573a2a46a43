-- ===== src/Measure/Ntc.antt =====
-- rm32/src/ntc.rs: the table of an external thermistor, from ADC counts to degrees.
use rm.Prelude.{ℕ, ◌-◌, ◌*◌, ◌/◌, ◌≤◌, ltb, if◌then◌else◌, min_of, arith}

-- `NTC_TABLE`, by the rule that fills it; every difference is of a larger number.
unfoldable pub ntc_table : ℕ → ℕ
ntc_table i =
    let adc = i * 16 in
    if ltb adc 200
    then 150
    else if ltb adc 500
    then 150 - (adc - 200) * 50 / 300
    else if ltb adc 1500
    then 100 - (adc - 500) * 60 / 1000
    else if ltb adc 3000
    then 40 - (adc - 1500) * 40 / 1500
    else 0

unfoldable pub ntc_degrees : ℕ → ℕ
ntc_degrees raw_adc = ntc_table (min_of (raw_adc / 16) 255)

-- A higher reading is never a hotter temperature, and no reading is hotter than 150 degrees.
pub ntc_degrees_falls : (a b : ℕ) → a ≤ b → (ntc_degrees b ≤ ntc_degrees a) × (ntc_degrees a ≤ 150)
unfolding ntc_degrees ntc_table
ntc_degrees_falls a b h = ground arith
