-- ===== src/Servo/Slew.antt =====
-- The throttle of a servo pulse in rm32/src/servo.rs: its range, its step and where it settles.
use rm.Prelude.{
  ℕ, zero, suc, ◌+◌, ◌-◌, ◌*◌, ◌≤◌, ◌<◌, ◌≡◌, arith, refl, Bool, true, false, ltb, leb,
  if◌then◌else◌, ap, ◌∙◌,
}
use rm.Prelude.Int.{ℤ, pos, as_u16, i32, ◌+ℤ◌, ◌-ℤ◌, sub_ℕ}
use rm.Arith.Map.Order.{map_total}
use rm.Servo.{ServoState, ServoResult, rate_limit, raw_of, compute}

-- One step towards a target, by at most `dev`.
pub towards : ℕ → ℕ → ℕ → ℕ
towards dev target current =
    if ltb (current + dev) target
    then current + dev
    else if ltb (target + dev) current
    then current - dev
    else target

difference : (a b : ℕ) → a ≤ 65535 → b ≤ 65535 → i32 (pos a -ℤ pos b) ≡ sub_ℕ a b
unfolding i32 ◌-ℤ◌
difference a b h k = ground arith

total : (a b : ℕ) → a ≤ 65535 → b ≤ 65535 → i32 (pos a +ℤ pos b) ≡ pos (a + b)
unfolding i32 ◌+ℤ◌
total a b h k = ground arith

rate_limit-towards :
    (s : ServoState) (target current : ℕ)
    → s.raw_input ≡ pos target
    → target ≤ 2047
    → current ≤ 2047
    → s.max_deviation ≤ 2047
    → rate_limit s current ≡ towards s.max_deviation target current
unfolding rate_limit towards as_u16
rate_limit-towards s target current e h k l =
    rw
      (
        e,
        difference target current (omega arith) (omega arith),
        difference current target (omega arith) (omega arith),
        total current s.max_deviation (omega arith) (omega arith),
        difference current s.max_deviation (omega arith) (omega arith),
      )
      (ground arith)

-- The target of a pulse, for thresholds of u16.
target_of :
    (s : ServoState) (pulse : ℕ) (bidirectional : Bool)
    → s.low_threshold < 65536
    → s.high_threshold < 65536
    → s.neutral < 65536
    → (t : ℕ) × (raw_of s pulse bidirectional ≡ pos t) × (t ≤ 2047)
unfolding raw_of
target_of s pulse true hl hh hn =
    let a =
      map_total pulse s.low_threshold s.neutral 0 1000 (omega arith) (omega arith) (omega arith)
        (omega arith) in
    let b =
      map_total pulse (s.neutral + 1) s.high_threshold 1001 2000 (omega arith) (omega arith)
        (omega arith) (omega arith) in
    ((if leb pulse s.neutral then a.0 else b.0), ground (arith, a.2, b.2), ground (arith, a.4, b.4))
target_of s pulse false hl hh hn =
    let a =
      map_total pulse s.low_threshold s.high_threshold 47 2047 (omega arith) (omega arith)
        (omega arith) (omega arith) in
    ((if leb a.0 48 then 0 else a.0), rw (a.2) (ground arith), ground (arith, a.4))

abbrev throttle_or : ℕ → ServoResult → ℕ
throttle_or current (ServoResult.throttle v) = v
throttle_or current _ = current

-- The throttle after a pulse has been seen n times.
pub repeated : ServoState → ℕ → Bool → ℕ → ℕ → ℕ
repeated s pulse bidirectional current zero = current
repeated s pulse bidirectional current (suc n) =
    let r = compute s pulse current bidirectional in
    repeated r.0 pulse bidirectional (throttle_or current r.1) n

-- A servo in normal operation with u16 thresholds.
pub record IsReady (s : ServoState) : Type 0 where
  pub normal : s.calibration_required ≡ false
  pub low : s.low_threshold < 65536
  pub high : s.high_threshold < 65536
  pub middle : s.neutral < 65536
  pub step : (0 < s.max_deviation) × (s.max_deviation ≤ 2047)

-- The throttle is one step towards the target of the pulse, and the state stays ready.
pulse_step :
    (s : ServoState) (pulse current : ℕ) (bidirectional : Bool) (t : ℕ)
    → IsReady s
    → 800 < pulse
    → pulse < 2200
    → current ≤ 2047
    → raw_of s pulse bidirectional ≡ pos t
    → t ≤ 2047
    → compute s pulse current bidirectional
      ≡ (record s { raw_input = pos t }, ServoResult.throttle (towards s.max_deviation t current))
unfolding compute
pulse_step s pulse current bidirectional t r l h c e k =
    rw (e, rate_limit-towards (record s { raw_input = pos t }) t current refl k c r.step.1)
      (ground arith)

raw_of-raw :
    (s : ServoState) (t : ℤ) (pulse : ℕ) (bidirectional : Bool)
    → raw_of (record s { raw_input = t }) pulse bidirectional ≡ raw_of s pulse bidirectional
unfolding raw_of
raw_of-raw s t pulse bidirectional = refl

towards_bounds :
    (dev t current n : ℕ)
    → t ≤ 2047
    → current ≤ 2047
    → t ≤ current + suc n * dev
    → current ≤ t + suc n * dev
    → (towards dev t current ≤ 2047)
      × (t ≤ towards dev t current + n * dev)
      × (towards dev t current ≤ t + n * dev)
unfolding towards
towards_bounds dev t current n h k l m = ground arith

settles :
    (n : ℕ) (s : ServoState) (pulse current : ℕ) (bidirectional : Bool) (t : ℕ)
    → IsReady s
    → 800 < pulse
    → pulse < 2200
    → current ≤ 2047
    → raw_of s pulse bidirectional ≡ pos t
    → t ≤ 2047
    → t ≤ current + n * s.max_deviation
    → current ≤ t + n * s.max_deviation
    → repeated s pulse bidirectional current n ≡ t
unfolding repeated
settles zero s pulse current bidirectional t r l h c e k a b = omega arith
settles (suc n) s pulse current bidirectional t r l h c e k a b =
    let q = towards_bounds s.max_deviation t current n k c a b in
    ap (λ x. repeated x.0 pulse bidirectional (throttle_or current x.1) n)
      (pulse_step s pulse current bidirectional t r l h c e k)
    ∙ settles n (record s { raw_input = pos t }) pulse (towards s.max_deviation t current)
        bidirectional t
        record { normal = r.normal; low = r.low; high = r.high; middle = r.middle; step = r.step } l
        h q.0 (raw_of-raw s (pos t) pulse bidirectional ∙ e) k q.1 q.2

-- A ready servo with a pulse of 801 to 2199 has a target of at most 2047: each pulse moves the
-- throttle towards it by at most `max_deviation`, the throttle stays at most 2047, and it is the
-- target after any number of repetitions that covers the distance.
pub servo_settles :
    (s : ServoState) (pulse current : ℕ) (bidirectional : Bool)
    → IsReady s
    → 800 < pulse
    → pulse < 2200
    → current ≤ 2047
    → (t : ℕ) × (raw_of s pulse bidirectional ≡ pos t)
      × (t ≤ 2047)
      × (compute s pulse current bidirectional ≡ (
        record s { raw_input = pos t },
        ServoResult.throttle (towards s.max_deviation t current),
      ))
      × (towards s.max_deviation t current ≤ 2047)
      × ((n : ℕ)
          → t ≤ current + n * s.max_deviation
          → current ≤ t + n * s.max_deviation
          → repeated s pulse bidirectional current n ≡ t)
unfolding towards
servo_settles s pulse current bidirectional r l h c =
    let g = target_of s pulse bidirectional r.low r.high r.middle in
    (
      g.0,
      g.1,
      g.2,
      pulse_step s pulse current bidirectional g.0 r l h c g.1 g.2,
      ground (arith, g.2),
      λ n a b. settles n s pulse current bidirectional g.0 r l h c g.1 g.2 a b,
    )
