-- ===== src/Arith/Map/Bisect.antt =====
-- `map` of rm32/src/functions.rs on unsigned arguments: it ends, and it is a bisection of two
-- ranges of natural numbers.
use native.Mathlib.Nat.{pow-suc}
use rm.Prelude.{
  ℕ, zero, suc, ◌+◌, ◌/◌, ◌^◌, ◌≤◌, ◌<◌, ◌≡◌, arith, leb, ◌==◌, if◌then◌else◌, some, min, max,
}
use rm.Prelude.Int.{pos, half, i32, ◌+ℤ◌}
use rm.Arith.Map.{map_loop, map}

-- The bisection without signs and without wrap-around.
pub bisect : ℕ → ℕ → ℕ → ℕ → ℕ → ℕ → ℕ
bisect zero x a b o p = o
bisect (suc f) x a b o p =
    let mid = (a + b) / 2 in
    let out = (o + p) / 2 in
    let low = bisect f x a mid o out in
    let high = bisect f x (mid + 1) b out p in
    if leb b x
    then p
    else if leb x a
    then o
    else if o == p
    then o
    else if a == mid
    then out
    else if leb x mid
    then low
    else high

abbrev pub limit : ℕ
limit = 1073741824

mid-pos : (a b : ℕ) → a < limit → b < limit → half (i32 (pos a +ℤ pos b)) ≡ pos ((a + b) / 2)
unfolding ◌+ℤ◌ i32
mid-pos a b ha hb = ground arith

next-pos : (a : ℕ) → a < limit → i32 (pos a +ℤ pos 1) ≡ pos (a + 1)
unfolding ◌+ℤ◌ i32
next-pos a ha = ground arith

-- One round of the loop on unsigned arguments.
map_loop-suc :
    (f x a b o p : ℕ)
    → a < limit
    → b < limit
    → o < limit
    → p < limit
    → map_loop (suc f) (pos x) (pos a) (pos b) (pos o) (pos p) ≡ (
        if leb b x
        then some (pos p)
        else if leb x a
        then some (pos o)
        else if o == p
        then some (pos o)
        else if a == (a + b) / 2
        then some (pos ((o + p) / 2))
        else if leb x ((a + b) / 2)
        then map_loop f (pos x) (pos a) (pos ((a + b) / 2)) (pos o) (pos ((o + p) / 2))
        else map_loop f (pos x) (pos ((a + b) / 2 + 1)) (pos b) (pos ((o + p) / 2)) (pos p))
unfolding map_loop
map_loop-suc f x a b o p ha hb ho hp =
    rw (mid-pos a b ha hb, mid-pos o p ho hp, next-pos ((a + b) / 2) (omega arith)) (ground arith)

pub map_loop-bisect :
    (f x a b o p : ℕ)
    → b < a + 2 ^ f
    → a < limit
    → b < limit
    → o < limit
    → p < limit
    → map_loop (suc f) (pos x) (pos a) (pos b) (pos o) (pos p)
      ≡ some (pos (bisect (suc f) x a b o p))
unfolding bisect
map_loop-bisect zero x a b o p w ha hb ho hp =
    rw (map_loop-suc 0 x a b o p ha hb ho hp) (ground arith)
map_loop-bisect (suc f) x a b o p w ha hb ho hp = rw (map_loop-suc (suc f) x a b o p ha hb ho hp) (
    ground (
      arith,
      pow-suc 2 f,
      map_loop-bisect f x a ((a + b) / 2) o ((o + p) / 2),
      map_loop-bisect f x ((a + b) / 2 + 1) b ((o + p) / 2) p,
    ))

-- On unsigned arguments below 2 ^ 30, as all callers pass them, 33 rounds are enough.
pub map-bisect :
    (x a b o p : ℕ)
    → a < limit
    → b < limit
    → o < limit
    → p < limit
    → map (pos x) (pos a) (pos b) (pos o) (pos p) ≡ pos (bisect 33 x a b o p)
unfolding map
map-bisect x a b o p ha hb ho hp = rw (map_loop-bisect 32 x a b o p (omega arith) ha hb ho hp)

-- The value lies between the ends of the output range, whichever of them is the larger.
pub bisect_bounds :
    (f x a b o p : ℕ) → (min o p ≤ bisect f x a b o p) × (bisect f x a b o p ≤ max o p)
unfolding bisect
bisect_bounds zero x a b o p = omega arith
bisect_bounds (suc f) x a b o p = ground (
  arith,
  bisect_bounds f x a ((a + b) / 2) o ((o + p) / 2),
  bisect_bounds f x ((a + b) / 2 + 1) b ((o + p) / 2) p,
)

pub bisect_ends :
    (f x a b o p : ℕ)
    → (b ≤ x → bisect (suc f) x a b o p ≡ p) × (x ≤ a → x < b → bisect (suc f) x a b o p ≡ o)
unfolding bisect
bisect_ends f x a b o p = (ground arith, ground arith)

-- A rising output range gives a rising value, and a falling one a falling value.
pub bisect_mono : (f x y a b o p : ℕ) → x ≤ y → o ≤ p → bisect f x a b o p ≤ bisect f y a b o p
unfolding bisect
bisect_mono zero x y a b o p h r = omega arith
bisect_mono (suc f) x y a b o p h r = ground (
  arith,
  bisect_bounds f x a ((a + b) / 2) o ((o + p) / 2),
  bisect_bounds f y ((a + b) / 2 + 1) b ((o + p) / 2) p,
  bisect_mono f x y a ((a + b) / 2) o ((o + p) / 2),
  bisect_mono f x y ((a + b) / 2 + 1) b ((o + p) / 2) p,
)

pub bisect_anti : (f x y a b o p : ℕ) → x ≤ y → p ≤ o → bisect f y a b o p ≤ bisect f x a b o p
unfolding bisect
bisect_anti zero x y a b o p h r = omega arith
bisect_anti (suc f) x y a b o p h r = ground (
  arith,
  bisect_bounds f x a ((a + b) / 2) o ((o + p) / 2),
  bisect_bounds f y ((a + b) / 2 + 1) b ((o + p) / 2) p,
  bisect_anti f x y a ((a + b) / 2) o ((o + p) / 2),
  bisect_anti f x y ((a + b) / 2 + 1) b ((o + p) / 2) p,
)
