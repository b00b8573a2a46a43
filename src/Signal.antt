-- ===== src/Signal.antt =====
-- rm32/src/signal.rs: the detection of the input protocol from a burst of edges, and the pulse-width
-- inputs. `edges[2..end]` is the burst without its first two entries, up to 32 of them.
pub mod Widths
use rm.Prelude.{
  ℕ, ◌+◌, ◌*◌, ◌/◌, ◌&&◌, Bool, List, [], ◌∷◌, Option, none, some, ltb, leb, ◌==◌, if◌then◌else◌,
  u16, u32, sub16, sub32, take, drop, get_or, length,
}
use rm.Prelude.Int.{ℤ, pos, leb_ℤ, as_u16}
use rm.Arith.Map.{map}

pub data SignalType : Type 0 where
  no_signal dshot600 dshot300 dshot150 servo_pwm : SignalType

-- What the loop of `detect_input` accumulates.
pub record Burst : Type 0 where
  pub smallest : ℕ
  pub total : ℕ
  pub count : ℕ

abbrev pub no_burst : Burst
no_burst = record { smallest = 20000; total = 0; count = 0 }

-- One width: zero is skipped.
unfoldable pub noted : Burst → ℕ → Burst
noted b diff =
    if ltb 0 diff
    then record {
      smallest = (if ltb diff b.smallest then diff else b.smallest);
      total = u32 (b.total + diff);
      count = u32 (b.count + 1);
    }
    else b

unfoldable pub measure : Burst → ℕ → List ℕ → Burst
measure b last [] = b
measure b last (e ∷ es) = measure (noted b (sub16 (u16 e) last)) (u16 e) es

abbrev within : ℕ → ℕ → ℕ → Bool
within low high x = leb low x && leb x high

-- The tests on the smallest and the mean width.
unfoldable pub classify : Burst → SignalType
classify b =
    let mean = b.total / b.count in
    if b.count == 0
    then no_signal
    else if within 1 3 b.smallest && ltb mean 60
    then dshot600
    else if within 4 8 b.smallest && ltb mean 100
    then dshot300
    else if within 9 16 b.smallest && ltb mean 200
    then dshot150
    else if ltb 200 b.smallest && ltb b.smallest 20000
    then servo_pwm
    else no_signal

unfoldable pub detect_input : List ℕ → SignalType
detect_input edges =
    if ltb (length edges) 3
    then no_signal
    else classify (measure no_burst (u16 (get_or edges 1 0)) (drop 2 (take 32 edges)))

unfoldable pub compute_multishot : List ℕ → Option ℕ
compute_multishot edges =
    let pulse = sub32 (get_or edges 1 0) (get_or edges 0 0) in
    if ltb (length edges) 2
    then none
    else if ltb 0 pulse && ltb pulse 1500
    then some (as_u16 (map (pos pulse) (pos 243) (pos 1200) (pos 0) (pos 2000)))
    else none

unfoldable pub compute_servo_unidirectional : ℕ → ℕ → ℕ → ℕ
compute_servo_unidirectional pulse_width low_threshold high_threshold =
    let raw = map (pos pulse_width) (pos low_threshold) (pos high_threshold) (pos 47) (pos 2047) in
    if leb_ℤ raw (pos 48) then 0 else as_u16 raw
