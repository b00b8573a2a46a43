-- ===== src/Dshot/Gcr.antt =====
-- rm32/src/dshot.rs, the telemetry half: the GCR word of a 12-bit value with its checksum, the level
-- sequence in the output buffer, and the 12-bit form of a period. Sums stand for `|` where the two
-- sides have no bit in common (`value << 4` and a nibble, the four shifted 5-bit groups).
pub mod Word
pub mod Period
use rm.Prelude.{
  ℕ, zero, suc, ◌+◌, ◌-◌, ◌*◌, ◌/◌, ◌%◌, ◌^◌, ◌≡◌, refl, Bool, List, [], ◌∷◌, Option, none, some,
  ltb, ◌==◌, if◌then◌else◌, u16, u32, shr, bit_and, bit_xor, get_or, set, length,
}
use Prim.Native.Nat.{bit_or}

abbrev pub gcr_encode_table : List ℕ
gcr_encode_table =
    0b11001 ∷ 0b11011 ∷ 0b10010 ∷ 0b10011 ∷ 0b11101 ∷ 0b10101 ∷ 0b10110 ∷ 0b10111 ∷ 0b11010
    ∷ 0b01001 ∷ 0b01010 ∷ 0b01011 ∷ 0b11110 ∷ 0b01101 ∷ 0b01110 ∷ 0b01111 ∷ []

-- The loop that folds the nibbles: the state is the checksum so far and the data left.
unfoldable pub csum_loop : ℕ → ℕ → ℕ → ℕ
csum_loop zero csum csum_data = csum
csum_loop (suc n) csum csum_data = csum_loop n (bit_xor csum csum_data) (shr csum_data 4)

unfoldable pub full_number : ℕ → ℕ
unfolding csum_loop
full_number value_12bit = u16 (value_12bit * 16) + bit_and (65535 - csum_loop 3 0 value_12bit) 15

unfoldable pub gcr_bits : ℕ → ℕ
unfolding full_number
gcr_bits value_12bit =
    let full = full_number value_12bit in
    get_or gcr_encode_table (shr full 12) 0 * 32768
    + get_or gcr_encode_table (bit_and (shr full 8) 15) 0 * 1024
    + get_or gcr_encode_table (bit_and (shr full 4) 15) 0 * 32
    + get_or gcr_encode_table (bit_and full 15) 0

-- The loop for `i` from 19 down to 0; `suc i` rounds are left.
unfoldable pub level_loop : ℕ → ℕ → ℕ → ℕ → List ℕ → List ℕ
level_loop zero gcr padding shift out = out
level_loop (suc i) gcr padding shift out =
    let bit = bit_xor (bit_and (shr gcr i) 1) (shr (get_or out (padding + 20 - i) 0) shift) in
    level_loop i gcr padding shift (set out (padding + 20 - i + 1) (u32 (bit * 2 ^ shift)))

-- A buffer that is too short is indexed out of bounds, which panics: `none`.
unfoldable pub encode_gcr_frame : ℕ → List ℕ → ℕ → ℕ → Option (List ℕ)
unfolding level_loop
encode_gcr_frame value_12bit gcr_out padding gcr_shift =
    if ltb (length gcr_out) (padding + 22)
    then none
    else some (
        level_loop 20 (gcr_bits value_12bit) padding gcr_shift
          (set (set gcr_out padding 0) (1 + padding) (2 ^ gcr_shift)))

-- The loop for `i` from 15 down to 9, which breaks at the top bit; `n` rounds are left.
unfoldable pub shift_loop : ℕ → ℕ → ℕ
shift_loop zero period = 0
shift_loop (suc n) period =
    let rest = shift_loop n period in if shr period (n + 9) == 1 then n + 1 else rest

unfoldable pub erpm_to_12bit : ℕ → Bool → ℕ
unfolding shift_loop
erpm_to_12bit com_time running =
    let period = if running then com_time else 65535 in
    let shift_amount = shift_loop 7 period in
    bit_or (u16 (shift_amount * 2 ^ 9)) (period / 2 ^ shift_amount)

unfoldable pub encode_telemetry_with_shift : ℕ → Bool → List ℕ → ℕ → ℕ → Option (List ℕ)
encode_telemetry_with_shift com_time running gcr_out padding gcr_shift =
    encode_gcr_frame (erpm_to_12bit com_time running) gcr_out padding gcr_shift
