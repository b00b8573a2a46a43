-- ===== src/Examples/SharedActionPriority.antt =====
-- Runs of the theorems of Shared.Action.Priority on concrete inputs.
use rm.Prelude.{[], refl, ◌++◌, ◌∷◌, ◌≡◌}
use rm.Shared.Action.{action_from_u8, all_off, commutate_kick, reset_interval_timer}
use rm.Shared.Action.Priority.{cell_run, clear, kill_is_pending, request}

kill_is_pending_example :
    action_from_u8 (
      cell_run 0 (
        (request commutate_kick ∷ [])
        ++ (request all_off ∷ (clear commutate_kick ∷ (request reset_interval_timer ∷ [])))))
    ≡ all_off
kill_is_pending_example =
    kill_is_pending (request commutate_kick ∷ [])
      (clear commutate_kick ∷ (request reset_interval_timer ∷ [])) refl
