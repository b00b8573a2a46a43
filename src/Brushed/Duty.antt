-- ===== src/Brushed/Duty.antt =====
-- The range of the duty of the brushed drive, and the latch of its direction.
use rm.Prelude.{ℕ, ◌*◌, ◌/◌, ◌≤◌, ◌<◌, ◌≡◌, arith, Bool, true}
use rm.Prelude.Int.{pos, as_u16}
use rm.Arith.Map.{map}
use rm.Arith.Map.Order.{map_total}
use rm.Brushed.{BrushedState, brushed_tick, set_direction}

-- The duty of a map between two ends of the output range stays below both their bounds.
map_duty :
    (x a b o p m : ℕ)
    → a < 65536
    → b < 65536
    → o ≤ m
    → p ≤ m
    → m < 65536
    → as_u16 (map (pos x) (pos a) (pos b) (pos o) (pos p)) ≤ m
unfolding as_u16
map_duty x a b o p m ha hb ho hp hm =
    let (r, returns, value, low, high, top, bottom) =
      map_total x a b o p (ground arith) (ground arith) (ground arith) (ground arith) in
    rw value (ground arith)

-- The duty of the brushed drive never exceeds its limit, in both directions and for every throttle.
pub brushed_tick_bounds :
    (s : BrushedState) (input : ℕ) (bidirectional : Bool) (max_duty : ℕ)
    → max_duty < 65536
    → (brushed_tick s input bidirectional max_duty).1.duty ≤ max_duty
unfolding brushed_tick
brushed_tick_bounds s input bidirectional max_duty h =
    let up =
      map_duty input 1048 2047 0 max_duty max_duty (omega arith) (omega arith) (omega arith)
        (omega arith) h in
    let down =
      map_duty input 48 1047 max_duty 0 max_duty (omega arith) (omega arith) (omega arith)
        (omega arith) h in
    let one =
      map_duty input 48 2047 0 (max_duty * 95 / 100) max_duty (omega arith) (omega arith)
        (omega arith) (omega arith) h in
    ground arith

-- While the throttle stays up, a direction that is set stays set, whichever half the stick is in.
pub brushed_tick_latch :
    (s : BrushedState) (input : ℕ) (bidirectional : Bool) (max_duty : ℕ)
    → s.direction_set ≡ true
    → 48 ≤ input
    → (brushed_tick s input bidirectional max_duty).0 ≡ s
unfolding brushed_tick set_direction
brushed_tick_latch s input bidirectional max_duty h up = ground arith
