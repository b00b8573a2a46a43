-- ===== src/Dshot/Gcr/Period.antt =====
-- The 12-bit floating form of a period, `erpm_to_12bit` of rm32/src/dshot.rs.
use rm.Prelude.{
  ℕ, zero, suc, ◌+◌, ◌*◌, ◌/◌, ◌%◌, ◌^◌, ◌≤◌, ◌<◌, ◌≡◌, refl, arith, Bool, true, false, ◌==◌, ltb,
  if◌then◌else◌, ==_iff, u16,
}
use Prim.Native.Nat.{bit_or}
use rm.Prelude.Words.{all_below, all_below_sound}
use rm.Dshot.Gcr.{shift_loop, erpm_to_12bit}

or_table : all_below 8 (λ s. all_below 512 (λ m. bit_or (s * 512) m == s * 512 + m)) ≡ true
unfolding all_below
or_table = refl

or_fields : (s m : ℕ) → s < 8 → m < 512 → bit_or (s * 512) m ≡ s * 512 + m
or_fields s m hs hm =
    (==_iff _ _).0 (all_below_sound 512 _ m (all_below_sound 8 _ s or_table hs) hm)

-- The shift that the loop finds, as a ladder of ranges.
ladder : ℕ → ℕ
ladder p =
    if ltb p 512
    then 0
    else if ltb p 1024
    then 1
    else if ltb p 2048
    then 2
    else if ltb p 4096
    then 3
    else if ltb p 8192
    then 4
    else if ltb p 16384
    then 5
    else if ltb p 32768
    then 6
    else 7

shift_loop-ladder : (p : ℕ) → p < 65536 → shift_loop 7 p ≡ ladder p
unfolding shift_loop ladder
shift_loop-ladder p h = ground arith

-- The mantissa of nine bits, and the exponent.
abbrev pub mantissa : ℕ → ℕ
mantissa w = w % 512

abbrev pub exponent : ℕ → ℕ
exponent w = w / 512

fields :
    (p s : ℕ) → s ≡ ladder p → p < 65536 → (s < 8) × (p / 2 ^ s < 512) × (0 < s → 256 ≤ p / 2 ^ s)
unfolding ladder
fields p zero e h = ground arith
fields p (suc zero) e h = ground arith
fields p (suc (suc zero)) e h = ground arith
fields p (suc (suc (suc zero))) e h = ground arith
fields p (suc (suc (suc (suc zero)))) e h = ground arith
fields p (suc (suc (suc (suc (suc zero))))) e h = ground arith
fields p (suc (suc (suc (suc (suc (suc zero)))))) e h = ground arith
fields p (suc (suc (suc (suc (suc (suc (suc zero))))))) e h = ground arith
fields p (suc (suc (suc (suc (suc (suc (suc (suc s)))))))) e h = ground arith

packed : (s m : ℕ) → s < 8 → m < 512 → bit_or (u16 (s * 512)) m ≡ s * 512 + m
packed s m hs hm = let e : u16 (s * 512) ≡ s * 512 = omega arith in rw e (or_fields s m hs hm)

exact : (p : ℕ) (s : ℕ) → s ≡ ladder p → p / 2 ^ s < 512 → p < 512 → s * 512 + p / 2 ^ s ≡ p
unfolding ladder
exact p zero e short h = omega arith
exact p (suc s) e short h = ground arith

top :
    (p : ℕ) (s : ℕ)
    → s ≡ ladder p
    → (0 < s → 256 ≤ p / 2 ^ s)
    → p / 2 ^ s < 512
    → 512 ≤ p
    → 256 ≤ (s * 512 + p / 2 ^ s) % 512
unfolding ladder
top p zero e full short h = ground arith
top p (suc s) e full short h = let f : 256 ≤ p / 2 ^ suc s = full (omega arith) in omega arith

-- The form has twelve bits; its mantissa is the period without its lowest bits, as many as the
-- exponent says, so the error is less than two to the exponent; a period below 512 is exact; and
-- above that the mantissa has its top bit set, so that nine bits are kept. A stopped motor reports
-- the longest period.
pub erpm_to_12bit_fields :
    (com_time : ℕ) (running : Bool)
    → com_time < 65536
    → let period = if running then com_time else 65535 in
      let w = erpm_to_12bit com_time running in
      (w < 4096)
      × (mantissa w ≡ period / 2 ^ exponent w)
      × (period < 512 → (w ≡ period))
      × (512 ≤ period → 256 ≤ mantissa w)
unfolding erpm_to_12bit
erpm_to_12bit_fields com_time true h =
    reading (shift_loop 7 com_time) (shift_loop-ladder com_time h)
  where
    reading :
        (s : ℕ)
        → s ≡ ladder com_time
        → let w = bit_or (u16 (s * 512)) (com_time / 2 ^ s) in
          (w < 4096)
          × (mantissa w ≡ com_time / 2 ^ exponent w)
          × (com_time < 512 → (w ≡ com_time))
          × (512 ≤ com_time → 256 ≤ mantissa w)
    reading s e =
        let (small, short, full) = fields com_time s e h in
        let word : bit_or (u16 (s * 512)) (com_time / 2 ^ s) ≡ s * 512 + com_time / 2 ^ s =
          packed s (com_time / 2 ^ s) small short in
        let power : (s * 512 + com_time / 2 ^ s) / 512 ≡ s = omega arith in
        rw (word, power)
          (omega arith, omega arith, exact com_time s e short, top com_time s e full short)
erpm_to_12bit_fields com_time false h =
    (omega arith, refl, λ k. absurd (omega arith), λ k. omega arith)
