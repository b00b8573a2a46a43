-- ===== src/Motor/Pid/Law.antt =====
-- The controller of rm32/src/pid.rs stays within its limits, whatever wraps.
use rm.Prelude.{ℕ, ◌≤◌, ◌≡◌, refl, arith}
use rm.Prelude.Int.{ℤ, pos, ◌-ℤ◌, i32, pos_part, neg_part}
use rm.Motor.Pid.{Pid, limited, calculate}

-- -limit ≤ v ≤ limit.
pub record Within (limit : ℕ) (v : ℤ) : Type 0 where
  pub low : neg_part v ≤ limit
  pub high : pos_part v ≤ limit

pub limited-Within : (l : ℕ) (v : ℤ) → l ≤ 2147483647 → Within l (limited (pos l) v)
unfolding limited i32
limited-Within l v h = ground arith

-- A value that is within the limit is not changed.
pub limited_id : (l : ℕ) (v : ℤ) → l ≤ 2147483647 → Within l v → limited (pos l) v ≡ v
unfolding limited i32
limited_id l v h w = ground arith

-- Whatever wraps inside, the output and the accumulated integral stay within their limits, which
-- are below 2 ^ 31; the output is stored and returned; the error is kept for the next derivative;
-- and the gains and limits are not touched.
pub calculate-Within :
    (c : Pid) (actual target : ℤ) (il ol : ℕ)
    → c.integral_limit ≡ pos il
    → c.output_limit ≡ pos ol
    → il ≤ 2147483647
    → ol ≤ 2147483647
    → let d = (calculate c actual target).0 in
      Within ol (calculate c actual target).1
      × Within il d.integral
      × (d.pid_output ≡ (calculate c actual target).1)
      × (d.last_error ≡ i32 (actual -ℤ target))
      × (d.kp ≡ c.kp)
      × (d.ki ≡ c.ki)
      × (d.kd ≡ c.kd)
      × (d.integral_limit ≡ c.integral_limit)
      × (d.output_limit ≡ c.output_limit)
calculate-Within c actual target il ol ei eo hi ho = (
  unfold calculate in rw eo (limited-Within ol _ ho),
  unfold calculate in rw ei (limited-Within il _ hi),
  unfold calculate in refl,
  unfold calculate in refl,
  unfold calculate in refl,
  unfold calculate in refl,
  unfold calculate in refl,
  unfold calculate in refl,
  unfold calculate in refl,
)
