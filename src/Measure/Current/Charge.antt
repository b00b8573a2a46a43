-- ===== src/Measure/Current/Charge.antt =====
-- The consumed charge: no charge is lost or counted twice by servicing it at other times.
use rm.Prelude.{ℕ, zero, suc, sym, ◌+◌, ◌*◌, ◌≤◌, ◌≡◌, arith, min_of}
use rm.Prelude.Int.{ℤ, pos, negsuc}
use rm.Platform.{Platform}
use rm.Measure.Current.{accumulate, max_charge}

distribute : (n a b : ℕ) → n * (a + b) ≡ n * a + n * b
distribute n a b = grind arith

mul_zero : (n : ℕ) → n * 0 ≡ 0
mul_zero n = omega arith

zero_mul : (n : ℕ) → 0 * n ≡ 0
zero_mul n = omega arith

closed :
    (p : Platform) (charge n elapsed : ℕ)
    → charge ≤ max_charge p
    → accumulate p charge (pos n) elapsed ≡ min_of (charge + n * elapsed) (max_charge p)
unfolding accumulate
closed p charge n zero h = ground (arith, mul_zero n)
closed p charge zero (suc e) h = ground (arith, zero_mul (suc e))
closed p charge (suc n) (suc e) h = ground arith

saturated : (a b c top : ℕ) → min_of (min_of (a + b) top + c) top ≡ min_of (a + (b + c)) top
saturated a b c top = ground arith

within : (a top : ℕ) → min_of a top ≤ top
within a top = ground arith

-- The charge of an interval is that of its two parts, one after the other, at every value of the
-- accumulator within its range, saturation included.
pub accumulate_split :
    (p : Platform) (charge : ℕ) (current : ℤ) (first second : ℕ)
    → charge ≤ max_charge p
    → accumulate p charge current (first + second)
      ≡ accumulate p (accumulate p charge current first) current second
unfolding accumulate
accumulate_split p charge (pos n) first second h =
    let top = max_charge p in
    rw
      (
        closed p charge n (first + second) h,
        closed p charge n first h,
        closed p (min_of (charge + n * first) top) n second (within (charge + n * first) top),
        distribute n first second,
      )
      (sym (saturated charge (n * first) (n * second) top))
accumulate_split p charge (negsuc n) first second h = ground arith
