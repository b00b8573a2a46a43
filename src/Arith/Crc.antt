-- ===== src/Arith/Crc.antt =====
-- The two checksums: CRC-8 of KISS telemetry, rm32/src/functions.rs, and CRC-8/DVB-S2 of CRSF,
-- rm32/src/crsf.rs, whose table is a value of a `const` block. Both shift one byte through a
-- polynomial, one bit at a time.
pub mod Detection
use rm.Prelude.{
  ℕ, zero, suc, ◌*◌, ◌+◌, ◌/◌, Bool, List, [], ◌∷◌, ◌==◌, ◌!=◌, if◌then◌else◌, u8, bit_and, bit_xor,
  get_or,
}

-- One round of the inner loops over the bits: test the top bit, shift, and fold the polynomial in.
unfoldable pub crc_bit : ℕ → ℕ → ℕ
crc_bit poly crc = if bit_and crc 128 != 0 then bit_xor poly (u8 (crc * 2)) else u8 (crc * 2)

unfoldable pub crc_bits : ℕ → ℕ → ℕ → ℕ
unfolding crc_bit
crc_bits poly zero crc = crc
crc_bits poly (suc n) crc = crc_bits poly n (crc_bit poly crc)

unfoldable pub update_crc8 : ℕ → ℕ → ℕ
unfolding crc_bits
update_crc8 crc seed = crc_bits 7 8 (bit_xor crc seed)

unfoldable pub crc8_from : ℕ → List ℕ → ℕ
crc8_from crc [] = crc
crc8_from crc (b ∷ bs) = crc8_from (update_crc8 b crc) bs

unfoldable pub get_crc8 : List ℕ → ℕ
unfolding crc8_from
get_crc8 buf = crc8_from 0 buf

-- The entry of `CRC8_TABLE` at an index below 256.
unfoldable pub crc8_table : ℕ → ℕ
unfolding crc_bits
crc8_table i = crc_bits 213 8 i

unfoldable pub crc8_dvb_from : ℕ → List ℕ → ℕ
crc8_dvb_from crc [] = crc
crc8_dvb_from crc (b ∷ bs) = crc8_dvb_from (crc8_table (bit_xor crc b)) bs

unfoldable pub crc8_dvb_s2 : List ℕ → ℕ
unfolding crc8_dvb_from
crc8_dvb_s2 bs = crc8_dvb_from 0 bs
