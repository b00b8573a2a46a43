-- ===== src/Prelude/Bits.antt =====
-- Masks of low bits as remainders, for every number, from the digits that the native operation
-- stands for.
use Prim.Native.Nat.{ℕ, zero, suc, ◌+◌, ◌*◌, ◌/◌, ◌%◌, ◌≤◌, min, bit_and, digits, bit_and-bitwise}
use mathlib.Core.Path.{◌≡◌, refl}
use native.Mathlib.Omega.{arith}

-- The common digits of x and y, as many as the fuel allows.
common : ℕ → ℕ → ℕ → ℕ
common fuel x y = digits (λ rest. zero) min fuel x y

-- Fuel beyond the number itself changes nothing.
common_stable : (x y fuel more : ℕ) → x ≤ fuel → x ≤ more → common fuel x y ≡ common more x y
unfolding common
common_stable zero y zero zero h k = refl
common_stable zero y (suc fuel) zero h k = refl
common_stable zero y zero (suc more) h k = refl
common_stable zero y (suc fuel) (suc more) h k = refl
common_stable (suc x) y zero more h k = absurd (omega arith)
common_stable (suc x) y (suc fuel) zero h k = absurd (omega arith)
common_stable (suc x) y (suc fuel) (suc more) h k =
    let half = suc x / 2 in
    omega (arith, common_stable half (y / 2) fuel more (omega arith) (omega arith))

-- A mask of zero keeps no digit.
common-zero : (fuel x : ℕ) → common fuel x 0 ≡ 0
unfolding common
common-zero zero x = refl
common-zero (suc fuel) zero = refl
common-zero (suc fuel) (suc x) = omega (arith, common-zero fuel (suc x / 2))

-- The lowest binary digit, and the rest.
halved : (x y : ℕ) → bit_and x y ≡ min (x % 2) (y % 2) + 2 * bit_and (x / 2) (y / 2)
unfolding common
halved zero y = omega (arith, bit_and-bitwise 0 y, bit_and-bitwise 0 (y / 2))
halved (suc x) y =
    let half = suc x / 2 in
    let stable = common_stable half (y / 2) x half (omega arith) (omega arith) in
    omega (arith, bit_and-bitwise (suc x) y, bit_and-bitwise half (y / 2), stable)

no_mask : (x : ℕ) → bit_and x 0 ≡ 0
unfolding common
no_mask x = omega (arith, bit_and-bitwise x 0, common-zero x x)

-- `& 0xF`, and the single bit `& 0x10`.
pub bit_and_nibble : (x : ℕ) → bit_and x 15 ≡ x % 16
bit_and_nibble x =
    let a = x / 2 in
    let b = a / 2 in
    let c = b / 2 in omega (arith, halved x 15, halved a 7, halved b 3, halved c 1, no_mask (c / 2))

pub bit_and_sixteen : (x : ℕ) → bit_and x 16 ≡ x / 16 % 2 * 16
bit_and_sixteen x =
    let a = x / 2 in
    let b = a / 2 in
    let c = b / 2 in
    let d = c / 2 in
    omega (arith, halved x 16, halved a 8, halved b 4, halved c 2, halved d 1, no_mask (d / 2))
