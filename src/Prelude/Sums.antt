-- ===== src/Prelude/Sums.antt =====
-- The sum of a list of words, and how it changes with one slot.
use Prim.Native.Nat.{ℕ, zero, suc, ◌+◌, ◌*◌, ◌≤◌, ◌<◌}
use mathlib.Core.Path.{◌≡◌}
use mathlib.Core.List.{List, [], ◌∷◌}
use native.Mathlib.Omega.{arith}
use rm.Prelude.Lists.{length, get_or, set}

unfoldable pub sum : List ℕ → ℕ
sum [] = 0
sum (x ∷ xs) = x + sum xs

abbrev pub AllU16 : List ℕ → Type 0
AllU16 [] = Unit {0}
AllU16 (x ∷ xs) = (x < 65536) × AllU16 xs

pub sum-set :
    (xs : List ℕ) (i v : ℕ) → i < length xs → sum (set xs i v) + get_or xs i 0 ≡ sum xs + v
unfolding sum
sum-set [] i v h = elim h [ ]
sum-set (x ∷ xs) zero v h = omega arith
sum-set (x ∷ xs) (suc i) v h = omega (arith, sum-set xs i v (omega arith))

pub get_or-le-sum : (xs : List ℕ) (i : ℕ) → get_or xs i 0 ≤ sum xs
unfolding sum
get_or-le-sum [] i = omega arith
get_or-le-sum (x ∷ xs) zero = omega arith
get_or-le-sum (x ∷ xs) (suc i) = omega (arith, get_or-le-sum xs i)

pub sum-le : (xs : List ℕ) → AllU16 xs → sum xs ≤ 65535 * length xs
unfolding sum
sum-le [] h = omega arith
sum-le (x ∷ xs) h = omega (arith, sum-le xs h.1)

pub set-AllU16 : (xs : List ℕ) (i v : ℕ) → AllU16 xs → v < 65536 → AllU16 (set xs i v)
set-AllU16 [] i v h hv = tt
set-AllU16 (x ∷ xs) zero v h hv = (hv, h.1)
set-AllU16 (x ∷ xs) (suc i) v h hv = (h.0, set-AllU16 xs i v h.1 hv)
