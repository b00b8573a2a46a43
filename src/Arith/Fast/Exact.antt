-- ===== src/Arith/Fast/Exact.antt =====
-- The shift series of rm32/src/fast_math.rs are exact for every argument of their type.
use rm.Prelude.{ℕ, ◌+◌, ◌/◌, ◌≤◌, ◌<◌, ◌≡◌, arith, ap, ◌∙◌}
use rm.Prelude.Int.{ℤ, pos, negsuc, quot, i32, neg_part, pos_part}
use rm.Arith.Fast.{div3_u32, div5_u32, div3_i32, div10_u32, div2000_u32}

div3_u32_exact : (n : ℕ) → n < 4294967296 → div3_u32 n ≡ n / 3
unfolding div3_u32
div3_u32_exact n h = omega arith

div5_u32_exact : (n : ℕ) → n < 4294967296 → div5_u32 n ≡ n / 5
unfolding div5_u32
div5_u32_exact n h = omega arith

-- For every i32 the helper gives the quotient by three, truncated towards zero.
pub div3_i32_exact :
    (a : ℤ) → neg_part a ≤ 2147483648 → pos_part a ≤ 2147483647 → div3_i32 a ≡ quot a 3
unfolding div3_i32 i32
div3_i32_exact (pos n) l h = ground (arith, div3_u32_exact n)
div3_i32_exact (negsuc n) l h = ground (arith, div3_u32_exact (n + 1))

-- For every u32 the helpers give the quotients by ten and by two thousand.
pub div10-div2000_exact :
    (n : ℕ) → n < 4294967296 → (div10_u32 n ≡ n / 10) × (div2000_u32 n ≡ n / 2000)
unfolding div10_u32 div2000_u32
div10-div2000_exact n h = (
  omega (arith, div5_u32_exact n),
  omega (
    arith,
    div5_u32_exact (n / 16),
    div5_u32_exact (n / 16 / 5),
    ap div5_u32 (div5_u32_exact (n / 16) (omega arith)),
    ap div5_u32 (
        ap div5_u32 (div5_u32_exact (n / 16) (omega arith))
        ∙ div5_u32_exact (n / 16 / 5) (omega arith)),
    div5_u32_exact (n / 16 / 5 / 5),
  ),
)
