-- ===== src/Examples/ArithMapOrder.antt =====
-- Runs of the theorems of Arith.Map.Order on concrete inputs.
use rm.Arith.Map.{map, map_loop}
use rm.Arith.Map.Order.{map_total}
use rm.Prelude.{arith, max, min, some, ℕ, ◌<◌, ◌≡◌, ◌≤◌}
use rm.Prelude.Int.{pos}

map_total_example :
    (r : ℕ) × (map_loop 33 (pos 1500) (pos 1000) (pos 2000) (pos 47) (pos 2047) ≡ some (pos r))
    × (map (pos 1500) (pos 1000) (pos 2000) (pos 47) (pos 2047) ≡ pos r)
    × (min 47 2047 ≤ r)
    × (r ≤ max 47 2047)
    × (2000 ≤ 1500 → r ≡ 2047)
    × (1500 ≤ 1000 → 1500 < 2000 → r ≡ 47)
map_total_example =
    map_total 1500 1000 2000 47 2047 (omega arith) (omega arith) (omega arith) (omega arith)
