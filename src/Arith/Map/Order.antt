-- ===== src/Arith/Map/Order.antt =====
-- What the callers of `map` in rm32/src/functions.rs rely on: range, ends and order of its values.
use rm.Prelude.{ℕ, ◌≤◌, ◌<◌, ◌≡◌, arith, min, max, some}
use rm.Prelude.Int.{pos, ◌≤ℤ◌}
use rm.Arith.Map.{map, map_loop}
use rm.Arith.Map.Bisect.{
  bisect, limit, map-bisect, map_loop-bisect, bisect_bounds, bisect_ends, bisect_mono, bisect_anti,
}

-- For arguments below 2 ^ 30 the loop of `map` returns within 33 rounds; its value is the larger end
-- of the output range or less and the smaller end or more, the first output end at or below the
-- input range, and the second output end at or above it.
pub map_total :
    (x a b o p : ℕ)
    → a < limit
    → b < limit
    → o < limit
    → p < limit
    → (r : ℕ) × (map_loop 33 (pos x) (pos a) (pos b) (pos o) (pos p) ≡ some (pos r))
      × (map (pos x) (pos a) (pos b) (pos o) (pos p) ≡ pos r)
      × (min o p ≤ r)
      × (r ≤ max o p)
      × (b ≤ x → r ≡ p)
      × (x ≤ a → x < b → r ≡ o)
map_total x a b o p ha hb ho hp = (
  bisect 33 x a b o p,
  map_loop-bisect 32 x a b o p (omega arith) ha hb ho hp,
  map-bisect x a b o p ha hb ho hp,
  (bisect_bounds 33 x a b o p).0,
  (bisect_bounds 33 x a b o p).1,
  (bisect_ends 32 x a b o p).0,
  (bisect_ends 32 x a b o p).1,
)

-- For ends below 2 ^ 30 `map` is monotone: a larger input has a value at least as large if the
-- output range rises, and at most as large if it falls.
pub map_order :
    (x y a b o p : ℕ)
    → x ≤ y
    → a < limit
    → b < limit
    → o < limit
    → p < limit
    → (o ≤ p
        → map (pos x) (pos a) (pos b) (pos o) (pos p)
          ≤ℤ map (pos y) (pos a) (pos b) (pos o) (pos p))
      × (p ≤ o
          → map (pos y) (pos a) (pos b) (pos o) (pos p)
            ≤ℤ map (pos x) (pos a) (pos b) (pos o) (pos p))
map_order x y a b o p h ha hb ho hp =
    rw (map-bisect x a b o p ha hb ho hp, map-bisect y a b o p ha hb ho hp)
      (
        λ r. omega (arith, bisect_mono 33 x y a b o p h r),
        λ r. omega (arith, bisect_anti 33 x y a b o p h r),
      )
