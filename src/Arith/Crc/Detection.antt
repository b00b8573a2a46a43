-- ===== src/Arith/Crc/Detection.antt =====
-- What the checksums of rm32/src/functions.rs and rm32/src/crsf.rs detect.
use rm.Prelude.{
  ℕ, zero, suc, ◌+◌, ◌/◌, ◌%◌, ◌<◌, ◌≡◌, refl, sym, ap, ◌∙◌, true, List, [], ◌∷◌, ◌++◌, ◌==◌, ◌&&◌,
  ltb, ==_iff, if◌then◌else◌, bit_xor, arith,
}
use rm.Prelude.Words.{all_below, all_below_sound}
use rm.Arith.Crc.{
  crc_bits, update_crc8, crc8_from, get_crc8, crc8_table, crc8_dvb_from, crc8_dvb_s2,
}

abbrev pub AllBytes : List ℕ → Type 0
AllBytes [] = Unit {0}
AllBytes (x ∷ xs) = (x < 256) × AllBytes xs

-- Undoing one bit: the polynomials are odd, so the lowest bit is the one that was shifted out.
uncrc_bit : ℕ → ℕ → ℕ
uncrc_bit poly y = if y % 2 == 1 then bit_xor y poly / 2 + 128 else y / 2

uncrc_bits : ℕ → ℕ → ℕ → ℕ
unfolding uncrc_bit
uncrc_bits poly zero y = y
uncrc_bits poly (suc n) y = uncrc_bit poly (uncrc_bits poly n y)

table7 :
    all_below 256 (λ x. uncrc_bits 7 8 (crc_bits 7 8 x) == x && ltb (crc_bits 7 8 x) 256) ≡ true
unfolding all_below uncrc_bits crc_bits
table7 = refl

table213 :
    all_below 256 (λ x. uncrc_bits 213 8 (crc_bits 213 8 x) == x && ltb (crc_bits 213 8 x) 256)
    ≡ true
unfolding all_below uncrc_bits crc_bits
table213 = refl

xor_table :
    all_below 256 (λ x. all_below 256 (λ y.
      bit_xor (bit_xor x y) y == x && (bit_xor y (bit_xor y x) == x && ltb (bit_xor x y) 256)))
    ≡ true
unfolding all_below
xor_table = refl

-- A byte-wise checksum whose step keeps bytes, and loses neither the state nor the next byte.
record IsReversible (step : ℕ → ℕ → ℕ) : Type 0 where
  byte : (c b : ℕ) → c < 256 → b < 256 → step c b < 256
  state : (c d b : ℕ) → c < 256 → d < 256 → b < 256 → step c b ≡ step d b → c ≡ d
  next : (c b e : ℕ) → c < 256 → b < 256 → e < 256 → step c b ≡ step c e → b ≡ e

run : (ℕ → ℕ → ℕ) → ℕ → List ℕ → ℕ
run step c [] = c
run step c (b ∷ bs) = run step (step c b) bs

module _ (step : ℕ → ℕ → ℕ) (v : IsReversible step) where
  run_state :
      (c d : ℕ) (bs : List ℕ)
      → AllBytes bs
      → c < 256
      → d < 256
      → run step c bs ≡ run step d bs
      → c ≡ d
  unfolding run
  run_state c d [] h hc hd e = e
  run_state c d (b ∷ bs) h hc hd e =
      v.state c d b hc hd h.0
        (run_state (step c b) (step d b) bs h.1 (v.byte c b hc h.0) (v.byte d b hd h.0) e)

  run_next :
      (c : ℕ) (xs ys : List ℕ) (b e : ℕ)
      → AllBytes xs
      → AllBytes ys
      → c < 256
      → b < 256
      → e < 256
      → run step c (xs ++ b ∷ ys) ≡ run step c (xs ++ e ∷ ys)
      → b ≡ e
  unfolding run
  run_next c [] ys b e hx hy hc hb he h =
      v.next c b e hc hb he
        (run_state (step c b) (step c e) ys hy (v.byte c b hc hb) (v.byte c e hc he) h)
  run_next c (x ∷ xs) ys b e hx hy hc hb he h =
      run_next (step c x) xs ys b e hx.1 hy (v.byte c x hc hx.0) hb he h

-- The facts of one table entry.
xor_facts :
    (x y : ℕ)
    → x < 256
    → y < 256
    → (bit_xor (bit_xor x y) y ≡ x) × (bit_xor y (bit_xor y x) ≡ x) × (bit_xor x y < 256)
xor_facts x y hx hy =
    ground (arith, all_below_sound 256 _ y (all_below_sound 256 _ x xor_table hx) hy)

module _ (poly : ℕ)
    (table : (x : ℕ)
      → x < 256
      → (uncrc_bits poly 8 (crc_bits poly 8 x) ≡ x) × (crc_bits poly 8 x < 256)) where
  crc_injective : (x y : ℕ) → x < 256 → y < 256 → crc_bits poly 8 x ≡ crc_bits poly 8 y → x ≡ y
  crc_injective x y hx hy e = sym (table x hx).0 ∙ ap (uncrc_bits poly 8) e ∙ (table y hy).0

table7_facts : (x : ℕ) → x < 256 → (uncrc_bits 7 8 (crc_bits 7 8 x) ≡ x) × (crc_bits 7 8 x < 256)
table7_facts x h = ground (arith, all_below_sound 256 _ x table7 h)

table213_facts :
    (x : ℕ) → x < 256 → (uncrc_bits 213 8 (crc_bits 213 8 x) ≡ x) × (crc_bits 213 8 x < 256)
table213_facts x h = ground (arith, all_below_sound 256 _ x table213 h)

kiss_step : ℕ → ℕ → ℕ
kiss_step c b = update_crc8 b c

kiss-IsReversible : IsReversible kiss_step
unfolding kiss_step update_crc8
kiss-IsReversible = record {
  byte = λ c b hc hb. (table7_facts (bit_xor b c) (xor_facts b c hb hc).2).1;
  state = λ c d b hc hd hb e.
      sym (xor_facts c b hc hb).1
      ∙ ap (bit_xor b)
          (crc_injective 7 table7_facts _ _ (xor_facts b c hb hc).2 (xor_facts b d hb hd).2 e)
      ∙ (xor_facts d b hd hb).1;
  next = λ c b x hc hb hx e.
      sym (xor_facts b c hb hc).0
      ∙ ap (λ t. bit_xor t c)
          (crc_injective 7 table7_facts _ _ (xor_facts b c hb hc).2 (xor_facts x c hx hc).2 e)
      ∙ (xor_facts x c hx hc).0;
}

dvb_step : ℕ → ℕ → ℕ
dvb_step c b = crc8_table (bit_xor c b)

dvb-IsReversible : IsReversible dvb_step
unfolding dvb_step crc8_table
dvb-IsReversible = record {
  byte = λ c b hc hb. (table213_facts (bit_xor c b) (xor_facts c b hc hb).2).1;
  state = λ c d b hc hd hb e.
      sym (xor_facts c b hc hb).0
      ∙ ap (λ t. bit_xor t b)
          (crc_injective 213 table213_facts _ _ (xor_facts c b hc hb).2 (xor_facts d b hd hb).2 e)
      ∙ (xor_facts d b hd hb).0;
  next = λ c b x hc hb hx e.
      sym (xor_facts b c hb hc).1
      ∙ ap (bit_xor c)
          (crc_injective 213 table213_facts _ _ (xor_facts c b hc hb).2 (xor_facts c x hc hx).2 e)
      ∙ (xor_facts x c hx hc).1;
}

crc8_from-run : (c : ℕ) (bs : List ℕ) → crc8_from c bs ≡ run kiss_step c bs
unfolding crc8_from run kiss_step
crc8_from-run c [] = refl
crc8_from-run c (b ∷ bs) = crc8_from-run (update_crc8 b c) bs

crc8_dvb_from-run : (c : ℕ) (bs : List ℕ) → crc8_dvb_from c bs ≡ run dvb_step c bs
unfolding crc8_dvb_from run dvb_step
crc8_dvb_from-run c [] = refl
crc8_dvb_from-run c (b ∷ bs) = crc8_dvb_from-run (crc8_table (bit_xor c b)) bs

-- Both checksums detect every corruption of a single byte: two messages that differ in at most one
-- place have the same checksum only if they agree there too.
pub crc8_detects :
    (xs ys : List ℕ) (a b : ℕ)
    → AllBytes xs
    → AllBytes ys
    → a < 256
    → b < 256
    → (get_crc8 (xs ++ a ∷ ys) ≡ get_crc8 (xs ++ b ∷ ys) → a ≡ b)
      × (crc8_dvb_s2 (xs ++ a ∷ ys) ≡ crc8_dvb_s2 (xs ++ b ∷ ys) → a ≡ b)
unfolding get_crc8 crc8_dvb_s2
crc8_detects xs ys a b hx hy ha hb = (
  λ e.
      run_next kiss_step kiss-IsReversible 0 xs ys a b hx hy (omega arith) ha hb
        (sym (crc8_from-run 0 (xs ++ a ∷ ys)) ∙ e ∙ crc8_from-run 0 (xs ++ b ∷ ys)),
  λ e.
      run_next dvb_step dvb-IsReversible 0 xs ys a b hx hy (omega arith) ha hb
        (sym (crc8_dvb_from-run 0 (xs ++ a ∷ ys)) ∙ e ∙ crc8_dvb_from-run 0 (xs ++ b ∷ ys)),
)

crc8_from-byte : (c : ℕ) (bs : List ℕ) → c < 256 → AllBytes bs → crc8_from c bs < 256
unfolding crc8_from kiss_step
crc8_from-byte c [] hc h = hc
crc8_from-byte c (b ∷ bs) hc h =
    crc8_from-byte (update_crc8 b c) bs (kiss-IsReversible.byte c b hc h.0) h.1

crc8_from-append : (c : ℕ) (xs ys : List ℕ) → crc8_from c (xs ++ ys) ≡ crc8_from (crc8_from c xs) ys
unfolding crc8_from
crc8_from-append c [] ys = refl
crc8_from-append c (x ∷ xs) ys = crc8_from-append (update_crc8 x c) xs ys

self_table : all_below 256 (λ x. crc_bits 7 8 (bit_xor x x) == 0) ≡ true
unfolding all_below crc_bits
self_table = refl

-- A receiver that runs the CRC-8 over a message of bytes with its checksum behind it gets zero.
pub get_crc8-append_self : (bs : List ℕ) → AllBytes bs → get_crc8 (bs ++ get_crc8 bs ∷ []) ≡ 0
unfolding get_crc8 crc8_from update_crc8
get_crc8-append_self bs h =
    crc8_from-append 0 bs (crc8_from 0 bs ∷ [])
    ∙ (==_iff _ 0).0
        (all_below_sound 256 _ (crc8_from 0 bs) self_table (crc8_from-byte 0 bs (omega arith) h))
