-- ===== src/Brushed.antt =====
-- rm32/src/brushed.rs: one tick of the brushed drive. `brushed_tick` returns the new state and the
-- output.
pub mod Duty
use rm.Prelude.{ℕ, ◌*◌, ◌/◌, Bool, true, false, ltb, leb, if◌then◌else◌}
use rm.Prelude.Int.{pos, as_u16}
use rm.Arith.Map.{map}

pub data BrushedDirection : Type 0 where
  forward reverse : BrushedDirection

pub record BrushedState : Type 0 where
  pub direction : BrushedDirection
  pub direction_set : Bool

pub record BrushedOutput : Type 0 where
  pub duty : ℕ
  pub direction : BrushedDirection

-- The first throttle after a release sets the direction.
unfoldable pub set_direction : BrushedState → BrushedDirection → BrushedState
set_direction s d = if s.direction_set then s else record { direction = d; direction_set = true }

unfoldable pub brushed_tick : BrushedState → ℕ → Bool → ℕ → BrushedState × BrushedOutput
unfolding set_direction
brushed_tick s input bidirectional max_duty =
    if ltb input 48
    then (record s { direction_set = false }, record { duty = 0; direction = s.direction })
    else if bidirectional
    then (if leb 1048 input
        then (
          set_direction s forward,
          record {
            duty = as_u16 (map (pos input) (pos 1048) (pos 2047) (pos 0) (pos max_duty));
            direction = forward;
          },
        )
        else (
          set_direction s reverse,
          record {
            duty = as_u16 (map (pos input) (pos 48) (pos 1047) (pos max_duty) (pos 0));
            direction = reverse;
          },
        ))
    else (
      s,
      record {
        duty = as_u16 (map (pos input) (pos 48) (pos 2047) (pos 0) (pos (max_duty * 95 / 100)));
        direction = forward;
      },
    )
