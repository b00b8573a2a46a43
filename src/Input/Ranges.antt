-- ===== src/Input/Ranges.antt =====
-- What rm32/src/input_mapping.rs guarantees of throttle, reversal and brake.
use rm.Prelude.{ℕ, ◌+◌, ◌%◌, ◌-◌, ◌*◌, ◌≤◌, ◌<◌, ◌≡◌, arith, Bool, true, false, not, min, max}
use rm.Prelude.Int.{pos, as_u16}
use rm.Arith.Map.{map}
use rm.Arith.Map.Order.{map_total, map_order}
use rm.Input.Mapping.{
  BidirResult, can_reverse, dshot_bidir, dshot_rc_car, servo_bidir, servo_rc_car, servo_forward,
  servo_reverse, sine_start_map,
}

-- The value of `map` as a u16, which lies in the output range.
map_u16 :
    (x a b o p : ℕ)
    → a < 1073741824
    → b < 1073741824
    → o < 65536
    → p < 65536
    → (min o p ≤ as_u16 (map (pos x) (pos a) (pos b) (pos o) (pos p)))
      × (as_u16 (map (pos x) (pos a) (pos b) (pos o) (pos p)) ≤ max o p)
unfolding as_u16
map_u16 x a b o p ha hb ho hp =
    let t = map_total x a b o p ha hb (omega arith) (omega arith) in ground (arith, t.2, t.3, t.4)

map_u16_mono :
    (x y a b o p : ℕ)
    → x ≤ y
    → o ≤ p
    → a < 1073741824
    → b < 1073741824
    → p < 65536
    → as_u16 (map (pos x) (pos a) (pos b) (pos o) (pos p))
      ≤ as_u16 (map (pos y) (pos a) (pos b) (pos o) (pos p))
unfolding as_u16
map_u16_mono x y a b o p h r ha hb hp =
    let t = map_total x a b o p ha hb (omega arith) (omega arith) in
    let u = map_total y a b o p ha hb (omega arith) (omega arith) in
    let m = (map_order x y a b o p h ha hb (omega arith) (omega arith)).0 r in
    ground (arith, t.2, u.2, m)

servo_bounds :
    (newinput d : ℕ)
    → (47 ≤ servo_forward newinput d)
      × (servo_forward newinput d ≤ 2047)
      × (47 ≤ servo_reverse newinput d)
      × (servo_reverse newinput d ≤ 2047)
unfolding servo_forward servo_reverse
servo_bounds newinput d = (
  ground (arith, map_u16 newinput ((1000 + d * 2 % 65536) % 65536) 2000 47 2047),
  ground (arith, map_u16 newinput ((1000 + d * 2 % 65536) % 65536) 2000 47 2047),
  ground (arith, map_u16 newinput 0 (1000 - d * 2 % 65536) 2047 47),
  ground (arith, map_u16 newinput 0 (1000 - d * 2 % 65536) 2047 47),
)

-- The throttle of a speed-gated servo map is in range with any dead band.
pub servo_bidir_range :
    (newinput : ℕ) (forward dir_reversed : Bool) (interval duty : ℕ) (sine : Bool)
    (threshold dead_band : ℕ)
    → (servo_bidir newinput forward dir_reversed interval duty sine threshold dead_band).adjusted
      ≤ 2047
unfolding servo_bidir
servo_bidir_range newinput forward dir_reversed interval duty sine threshold dead_band =
    ground (arith, servo_bounds newinput dead_band)

-- A result that a speed gate allows: the throttle is in range, the brake is off, and the direction
-- is only reversed where the gate is open.
pub record IsGated (r : BidirResult) (gate : Bool) : Type 0 where
  pub in_range : r.adjusted ≤ 2047
  pub no_brake : r.prop_brake ≡ false
  pub gate_open : r.reverse ≡ true → gate ≡ true

-- For an input of at most 2047 and a dead band of a byte, a speed-gated map gives a throttle of at most 2047,
-- never brakes, and reverses the direction only if the motor turns slowly with little duty or is in
-- sine mode; with that gate shut and the stick in the half opposite to the running direction, the
-- throttle is zero.
pub speed_gate :
    (newinput : ℕ) (forward dir_reversed : Bool) (interval duty : ℕ) (sine : Bool)
    (threshold dead_band : ℕ)
    → newinput ≤ 2047
    → dead_band ≤ 255
    → let gate = can_reverse interval duty sine threshold in
      let d = dshot_bidir newinput forward dir_reversed interval duty sine threshold in
      let s = servo_bidir newinput forward dir_reversed interval duty sine threshold dead_band in
      IsGated d gate
      × IsGated s gate
      × (gate ≡ false
          → (1047 < newinput → forward ≡ dir_reversed → d.adjusted ≡ 0)
            × (newinput ≤ 1047 → forward ≡ not dir_reversed → d.adjusted ≡ 0)
            × (1000 < newinput → forward ≡ dir_reversed → s.adjusted ≡ 0)
            × (newinput < 1000 → forward ≡ not dir_reversed → s.adjusted ≡ 0))
unfolding dshot_bidir servo_bidir
speed_gate newinput true true interval duty sine threshold dead_band h k =
    ground (arith, servo_bounds newinput dead_band)
speed_gate newinput true false interval duty sine threshold dead_band h k =
    ground (arith, servo_bounds newinput dead_band)
speed_gate newinput false true interval duty sine threshold dead_band h k =
    ground (arith, servo_bounds newinput dead_band)
speed_gate newinput false false interval duty sine threshold dead_band h k =
    ground (arith, servo_bounds newinput dead_band)

-- A result of a brake-and-reverse map under a brake and a handshake flag: throttle and brake exclude
-- each other, a held brake lets no throttle through but after the handshake, and the direction is
-- reversed only after the handshake.
pub record IsHandshake (r : BidirResult) (braking centred : Bool) : Type 0 where
  pub in_range : r.adjusted ≤ 2047
  pub exclusive : r.prop_brake ≡ true → r.adjusted ≡ 0
  pub held : braking ≡ true → r.reverse ≡ false → r.adjusted ≡ 0
  pub shaken : r.reverse ≡ true → centred ≡ true

-- For an input of at most 2047, both RC-car maps give a throttle of at most 2047,
-- none together with the brake, none while the brake is held unless the direction reverses, and
-- reverse only after the return to the centre.
pub rc_car-IsHandshake :
    (newinput : ℕ) (forward dir_reversed braking centred : Bool) (dead_band : ℕ)
    → newinput ≤ 2047
    → IsHandshake (dshot_rc_car newinput forward dir_reversed braking centred) braking centred
      × IsHandshake
          (servo_rc_car newinput forward dir_reversed braking centred dead_band)
          braking
          centred
unfolding dshot_rc_car servo_rc_car
rc_car-IsHandshake newinput true true braking centred dead_band h =
    ground (arith, servo_bounds newinput dead_band)
rc_car-IsHandshake newinput true false braking centred dead_band h =
    ground (arith, servo_bounds newinput dead_band)
rc_car-IsHandshake newinput false true braking centred dead_band h =
    ground (arith, servo_bounds newinput dead_band)
rc_car-IsHandshake newinput false false braking centred dead_band h =
    ground (arith, servo_bounds newinput dead_band)

-- The sine start map of a u8 changeover level gives zero below 30 and a throttle of 47 to 2047 from
-- there, and never falls when the input rises.
pub sine_start_map_mono :
    (a b level : ℕ)
    → a ≤ b
    → level ≤ 255
    → (a < 30 → sine_start_map a level ≡ 0)
      × (30 ≤ a → 47 ≤ sine_start_map a level)
      × (sine_start_map a level ≤ 2047)
      × (sine_start_map a level ≤ sine_start_map b level)
unfolding sine_start_map
sine_start_map_mono a b level h l = ground (
  arith,
  map_u16 a 30 (level * 20) 47 160,
  map_u16 b 30 (level * 20) 47 160,
  map_u16 a (level * 20) 2047 160 2047,
  map_u16 b (level * 20) 2047 160 2047,
  map_u16_mono a b 30 (level * 20) 47 160,
  map_u16_mono a b (level * 20) 2047 160 2047,
)
