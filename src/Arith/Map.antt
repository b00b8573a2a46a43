-- ===== src/Arith/Map.antt =====
-- rm32/src/functions.rs, `map` and `get_abs_dif`. The `loop` of `map` is a recursion on fuel, one
-- unit for each round; the interval is at most 2 ^ 32 wide and is halved by each round, so 33 rounds
-- are enough where the sum of the ends does not wrap (Map/Bisect proves it for the callers' ranges).
pub mod Bisect
pub mod Order
use rm.Prelude.{ℕ, zero, suc, ◌+◌, Bool, ◌&&◌, Option, none, some, if◌then◌else◌}
use rm.Prelude.Int.{ℤ, pos, negsuc, ◌+ℤ◌, ◌-ℤ◌, half, i32, leb_ℤ, ltb_ℤ, pos_part, neg_part}

abbrev pub eq_ℤ : ℤ → ℤ → Bool
eq_ℤ a b = leb_ℤ a b && leb_ℤ b a

unfoldable pub map_loop : ℕ → ℤ → ℤ → ℤ → ℤ → ℤ → Option ℤ
map_loop zero x in_min in_max out_min out_max = none
map_loop (suc f) x in_min in_max out_min out_max =
    let in_mid = half (i32 (in_min +ℤ in_max)) in
    let out_mid = half (i32 (out_min +ℤ out_max)) in
    let low = map_loop f x in_min in_mid out_min out_mid in
    let high = map_loop f x (i32 (in_mid +ℤ pos 1)) in_max out_mid out_max in
    if leb_ℤ in_max x
    then some out_max
    else if leb_ℤ x in_min
    then some out_min
    else if eq_ℤ out_min out_max
    then some out_min
    else if eq_ℤ in_min in_mid
    then some out_mid
    else if leb_ℤ x in_mid
    then low
    else high

-- The value behind `some`; zero stands for a loop that has not ended, which the laws exclude.
abbrev value_of : Option ℤ → ℤ
value_of none = pos 0
value_of (some v) = v

unfoldable pub map : ℤ → ℤ → ℤ → ℤ → ℤ → ℤ
map x in_min in_max out_min out_max = value_of (map_loop 33 x in_min in_max out_min out_max)

-- `(a - b).unsigned_abs()`
unfoldable pub get_abs_dif : ℤ → ℤ → ℕ
get_abs_dif a b = let d = i32 (a -ℤ b) in pos_part d + neg_part d
