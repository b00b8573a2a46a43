-- ===== src/Motor/Pid/Exact.antt =====
-- The controller of rm32/src/pid.rs computes the PID law: for moderate gains and inputs nothing wraps.
use native.Mathlib.Nat.{mul-le-mul_left}
use rm.Prelude.{ℕ, suc, ◌+◌, ◌*◌, ◌≤◌, ◌≡◌, refl, arith}
use rm.Prelude.Int.{ℤ, pos, negsuc, neg, ◌≤ℤ◌, ◌+ℤ◌, ◌-ℤ◌, ◌*ℤ◌, signed32, i32, i32_id}
use rm.Motor.Pid.{Pid, limited, calculate}
use rm.Motor.Pid.Law.{Within, limited-Within, limited_id}

-- What the limit of a value to the interval from -limit to limit is, by order alone: in the interval,
-- the value itself where that is in it, and the end that the value lies beyond where it is not.
pub record IsLimit (limit : ℕ) (v w : ℤ) : Type 0 where
  pub inside : Within limit w
  pub kept : Within limit v → w ≡ v
  pub above : pos limit ≤ℤ v → w ≡ pos limit
  pub below : v ≤ℤ neg (pos limit) → w ≡ neg (pos limit)

limited_above : (l : ℕ) (v : ℤ) → l ≤ 2147483647 → pos l ≤ℤ v → limited (pos l) v ≡ pos l
unfolding limited i32
limited_above l v h a = ground arith

limited_below :
    (l : ℕ) (v : ℤ) → l ≤ 2147483647 → v ≤ℤ neg (pos l) → limited (pos l) v ≡ neg (pos l)
unfolding limited i32
limited_below l v h b = ground arith

limited-IsLimit : (l : ℕ) (v : ℤ) → l ≤ 2147483647 → IsLimit l v (limited (pos l) v)
limited-IsLimit l v h = record {
  inside = limited-Within l v h;
  kept = limited_id l v h;
  above = limited_above l v h;
  below = limited_below l v h;
}

sum-Within : (a b : ℕ) (x y : ℤ) → Within a x → Within b y → Within (a + b) (x +ℤ y)
unfolding ◌+ℤ◌
sum-Within a b x y h k = ground arith

difference-Within : (a b : ℕ) (x y : ℤ) → Within a x → Within b y → Within (a + b) (x -ℤ y)
unfolding ◌-ℤ◌
difference-Within a b x y h k = ground arith

product_mono : (x a k g : ℕ) → x ≤ a → k ≤ g → x * k ≤ a * g
product_mono x a k g h i = omega (arith, mul-le-mul_left x i, mul-le-mul_left g h)

product-Within : (a g k : ℕ) (x : ℤ) → Within a x → k ≤ g → Within (a * g) (x *ℤ pos k)
unfolding ◌*ℤ◌
product-Within a g k (pos n) h below = ground (arith, product_mono n a k g h.high below)
product-Within a g k (negsuc n) h below = ground (arith, product_mono (suc n) a k g h.low below)

fits : (l : ℕ) (v : ℤ) → Within l v → l ≤ 2147483647 → i32 v ≡ v
fits l v w h = i32_id v (omega (arith, w.low)) (omega (arith, w.high))

-- A controller between two calls: its gains are small, and the integral and the last error are what
-- earlier calls with moderate inputs leave. The configuration gives gains of at most 510.
pub record IsModest (il : ℕ) (c : Pid) : Type 0 where
  pub limit : c.integral_limit ≡ pos il
  pub gain_p : c.kp ≤ 4096
  pub gain_i : c.ki ≤ 4096
  pub gain_d : c.kd ≤ 4096
  pub integral : Within il c.integral
  pub before : Within 131070 c.last_error

small_gain : (k : ℕ) → k ≤ 4096 → signed32 k ≡ pos k
small_gain k h = ground arith

widened : (a b : ℕ) (v : ℤ) → Within a v → a ≤ b → Within b v
widened a b v w h = record { low = omega (arith, w.low); high = omega (arith, w.high) }

product_flip : (k : ℕ) (x : ℤ) → pos k *ℤ x ≡ x *ℤ pos k
unfolding ◌*ℤ◌
product_flip k (pos n) = ground arith
product_flip k (negsuc n) = ground arith

product-Within_left : (a g k : ℕ) (x : ℤ) → Within a x → k ≤ g → Within (a * g) (pos k *ℤ x)
product-Within_left a g k x h below = rw (product_flip k x) (product-Within a g k x h below)

-- The terms of one call, with the error `e`.
abbrev gained : Pid → ℤ → ℤ
gained c e = c.integral +ℤ e *ℤ pos c.ki

abbrev slope : Pid → ℤ → ℤ
slope c e = pos c.kd *ℤ (e -ℤ c.last_error)

calculate_unwrapped :
    (c : Pid) (actual target : ℤ) (il : ℕ)
    → IsModest il c
    → il ≤ 536870911
    → Within 65535 actual
    → Within 65535 target
    → let e = actual -ℤ target in
      let integral = limited (pos il) (gained c e) in
      (calculate c actual target).0.last_error ≡ e
      × ((calculate c actual target).0.integral ≡ integral)
      × ((calculate c actual target).1
          ≡ limited c.output_limit (e *ℤ pos c.kp +ℤ integral +ℤ slope c e))
unfolding calculate
calculate_unwrapped c actual target il m h wa wt =
    let e = actual -ℤ target in
    let we = difference-Within 65535 65535 actual target wa wt in
    let wi = product-Within 131070 4096 c.ki e we m.gain_i in
    let wg = sum-Within il 536862720 c.integral (e *ℤ pos c.ki) m.integral wi in
    let wc = difference-Within 131070 131070 e c.last_error we m.before in
    let ws = product-Within_left 262140 4096 c.kd (e -ℤ c.last_error) wc m.gain_d in
    let wp = product-Within 131070 4096 c.kp e we m.gain_p in
    let li = limited-Within il (gained c e) (omega arith) in
    let wpi = sum-Within 536862720 il (e *ℤ pos c.kp) (limited (pos il) (gained c e)) wp li in
    let wo =
      sum-Within 1073733631 1073725440 (e *ℤ pos c.kp +ℤ limited (pos il) (gained c e)) (slope c e)
        (widened _ _ _ wpi (omega arith)) ws in
    rw
      (
        m.limit,
        small_gain c.kp m.gain_p,
        small_gain c.ki m.gain_i,
        small_gain c.kd m.gain_d,
        fits 131070 e we (omega arith),
        fits 536862720 (e *ℤ pos c.ki) wi (omega arith),
        fits (il + 536862720) (gained c e) wg (omega arith),
        fits 262140 (e -ℤ c.last_error) wc (omega arith),
        fits 1073725440 (slope c e) ws (omega arith),
        fits 536862720 (e *ℤ pos c.kp) wp (omega arith),
        fits (536862720 + il) (e *ℤ pos c.kp +ℤ limited (pos il) (gained c e)) wpi (omega arith),
        fits 2147459071 (e *ℤ pos c.kp +ℤ limited (pos il) (gained c e) +ℤ slope c e) wo
            (omega arith),
      )
      (refl, refl, refl)

calculate-IsModest :
    (c : Pid) (actual target : ℤ) (il : ℕ)
    → IsModest il c
    → Within 131070 (calculate c actual target).0.last_error
    → Within il (calculate c actual target).0.integral
    → IsModest il (calculate c actual target).0
unfolding calculate
calculate-IsModest c actual target il m before integral = record {
  limit = m.limit;
  gain_p = m.gain_p;
  gain_i = m.gain_i;
  gain_d = m.gain_d;
  integral = integral;
  before = before;
}

-- For gains of at most 4096, an integral limit below 2 ^ 29, an output limit below 2 ^ 31, an integral
-- within its limit, a last error within 131070 of zero, and a measured and a wanted value within
-- 65535 of zero, the controller computes the PID law over the integers. The new integral is the old
-- one plus the integral gain times the error, limited; the output is the proportional gain times the
-- error plus the new integral plus the derivative gain times the change of the error, limited; and
-- the conditions on the controller hold again for the next call. Limited means within the limit on
-- both sides, equal to the value where that is within it, and equal to the end that the value lies
-- beyond otherwise.
pub calculate_exact :
    (c : Pid) (actual target : ℤ) (il ol : ℕ)
    → IsModest il c
    → il ≤ 536870911
    → c.output_limit ≡ pos ol
    → ol ≤ 2147483647
    → Within 65535 actual
    → Within 65535 target
    → let e = actual -ℤ target in
      let d = (calculate c actual target).0 in
      IsLimit il (c.integral +ℤ e *ℤ pos c.ki) d.integral
      × IsLimit ol
          (e *ℤ pos c.kp +ℤ d.integral +ℤ pos c.kd *ℤ (e -ℤ c.last_error))
          (calculate c actual target).1
      × IsModest il d
calculate_exact c actual target il ol m h eo ho wa wt =
    let e = actual -ℤ target in
    let (last, integral, out) = calculate_unwrapped c actual target il m h wa wt in
    let limited_integral = limited-IsLimit il (gained c e) (omega arith) in
    let sum = e *ℤ pos c.kp +ℤ limited (pos il) (gained c e) +ℤ slope c e in
    (
      rw integral limited_integral,
      rw (out, integral, eo) (limited-IsLimit ol sum ho),
      calculate-IsModest c actual target il m
          (rw last (difference-Within 65535 65535 actual target wa wt))
          (rw integral limited_integral.inside),
    )
