-- ===== src/Dshot/Gcr/Word.antt =====
-- The GCR word of rm32/src/dshot.rs can be read back, and keeps the receiver in step.
use rm.Prelude.{
  ℕ, zero, suc, ◌+◌, ◌*◌, ◌/◌, ◌%◌, ◌^◌, ◌≤◌, ◌<◌, ◌≡◌, refl, arith, Bool, true, false, ◌&&◌, List,
  [], ◌∷◌, Option, none, some, ltb, leb, ◌==◌, if◌then◌else◌, bit_xor, get_or,
}
use rm.Prelude.Words.{all_below, all_below_sound}
use rm.Dshot.Gcr.{gcr_bits}

-- The receiver's codebook: the nibble of each five-bit group, and 16 for a group that is no code. It
-- is written out for all 32 groups, apart from the sender's table.
abbrev pub codebook : List ℕ
codebook =
    16 ∷ 16 ∷ 16 ∷ 16 ∷ 16 ∷ 16 ∷ 16 ∷ 16 ∷ 16 ∷ 9 ∷ 10 ∷ 11 ∷ 16 ∷ 13 ∷ 14 ∷ 15 ∷ 16 ∷ 16 ∷ 2 ∷ 3
    ∷ 16 ∷ 5 ∷ 6 ∷ 7 ∷ 16 ∷ 0 ∷ 8 ∷ 1 ∷ 16 ∷ 4 ∷ 12 ∷ 16 ∷ []

abbrev pub group_value : ℕ → ℕ
group_value g = get_or codebook g 16

-- Reading a 20-bit word: the four groups, and the value if the nibbles fold to fifteen.
pub read_word : ℕ → Option ℕ
read_word w =
    let a = group_value (w / 32768) in
    let b = group_value (w / 1024 % 32) in
    let c = group_value (w / 32 % 32) in
    let d = group_value (w % 32) in
    if ltb a 16
      && (ltb b 16 && (ltb c 16 && (ltb d 16 && bit_xor (bit_xor a b) (bit_xor c d) == 15)))
    then some (a * 256 + b * 16 + c)
    else none

-- The longest run of zeros in the lowest n bits of a word that follow a run of r zeros.
pub zeros : ℕ → ℕ → ℕ → ℕ
zeros zero r w = r
zeros (suc n) r w =
    let rest = zeros n (if w / 2 ^ n % 2 == 0 then r + 1 else 0) w in if ltb rest r then r else rest

is_value : Option ℕ → ℕ → Bool
is_value none v = false
is_value (some w) v = w == v

is_value-some : (o : Option ℕ) (v : ℕ) → is_value o v ≡ true → o ≡ some v
unfolding is_value
is_value-some none v e = cc
is_value-some (some w) v e = ground arith

word_table :
    all_below 4096 (λ v.
      is_value (read_word (gcr_bits v)) v
      && (ltb (gcr_bits v) 1048576 && leb (zeros 20 0 (gcr_bits v)) 2))
    ≡ true
unfolding all_below is_value read_word gcr_bits zeros
word_table = refl

-- Every 12-bit value is read back from its GCR word by a receiver with the codebook of the protocol;
-- the word's checksum is right, and it has twenty bits and no more than two zeros in a row.
pub read_word-gcr_bits :
    (v : ℕ)
    → v < 4096
    → (read_word (gcr_bits v) ≡ some v) × (gcr_bits v < 1048576) × (zeros 20 0 (gcr_bits v) ≤ 2)
read_word-gcr_bits v h =
    (is_value-some _ v (ground (arith, row)), ground (arith, row), ground (arith, row))
  where
    row :
        is_value (read_word (gcr_bits v)) v
          && (ltb (gcr_bits v) 1048576 && leb (zeros 20 0 (gcr_bits v)) 2)
        ≡ true
    row = all_below_sound 4096 _ v word_table h
