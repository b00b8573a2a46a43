-- ===== src/Arith/Fast.antt =====
-- rm32/src/fast_math.rs: division by constants from shifts and small products. Every intermediate
-- value of a u32 argument stays in u32, which Arith/Fast/Exact proves, so none is reduced here
-- except the multiplications, subtractions and sums, which are written with their wrap-around.
pub mod Exact
use rm.Prelude.{ℕ, ◌+◌, ◌-◌, ◌*◌, ◌/◌, ◌%◌, ◌^◌, u32, sub32, shr, Bool, if◌then◌else◌}
use rm.Prelude.Int.{ℤ, pos, negsuc, sub_ℕ, signed32, i32, neg, pos_part, neg_part}

-- One round `q += q >> k`.
abbrev pub add_shr : ℕ → ℕ → ℕ
add_shr k q = u32 (q + shr q k)

unfoldable pub div3_u32 : ℕ → ℕ
div3_u32 n =
    let q = add_shr 16 (add_shr 8 (add_shr 4 (u32 (shr n 2 + shr n 4)))) in
    let r = sub32 n (u32 (q * 3)) in u32 (q + shr (u32 (11 * r)) 5)

unfoldable pub div5_u32 : ℕ → ℕ
div5_u32 n =
    let q = shr (add_shr 16 (add_shr 8 (add_shr 4 (u32 (shr n 1 + shr n 2))))) 2 in
    let r = sub32 n (u32 (q * 5)) in u32 (q + shr (u32 (7 * r)) 5)

-- `unsigned_abs` of a negative i32 is the number that its two's complement negation stands for.
unfoldable pub div3_i32 : ℤ → ℤ
div3_i32 (pos n) = signed32 (div3_u32 n)
div3_i32 (negsuc n) = i32 (neg (signed32 (div3_u32 (n + 1))))

unfoldable pub div10_u32 : ℕ → ℕ
div10_u32 n = shr (div5_u32 n) 1

unfoldable pub div2000_u32 : ℕ → ℕ
div2000_u32 n = div5_u32 (div5_u32 (div5_u32 (shr n 4)))
