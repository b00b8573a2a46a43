-- ===== src/Shared/Action/Priority.antt =====
-- The order of the requests: what a run of requests and clears leaves in the cell.
use rm.Prelude.{ℕ, ◌≤◌, Bool, true, false, List, [], ◌∷◌, ◌++◌, ◌≡◌, refl, ap, ◌∙◌, arith}
use rm.Shared.Action.{
  IsrAction, no_action, reset_interval_timer, commutate_kick, all_off, action_code, action_from_u8,
  request_isr_action, clear_isr_action,
}

-- What a context does to the cell.
pub data CellStep : Type 0 where
  request : IsrAction → CellStep
  clear : IsrAction → CellStep

unfoldable pub cell_after : ℕ → CellStep → ℕ
unfolding request_isr_action clear_isr_action
cell_after cell (request a) = request_isr_action cell a
cell_after cell (clear a) = clear_isr_action cell a

unfoldable pub cell_run : ℕ → List CellStep → ℕ
cell_run cell [] = cell
cell_run cell (s ∷ rest) = cell_run (cell_after cell s) rest

-- Whether a run of steps has the clear of a kill.
abbrev pub has_kill_clear : List CellStep → Bool
has_kill_clear [] = false
has_kill_clear (clear all_off ∷ rest) = true
has_kill_clear (s ∷ rest) = has_kill_clear rest

pub action_from_u8-action_code : (a : IsrAction) → action_from_u8 (action_code a) ≡ a
unfolding action_from_u8 action_code
action_from_u8-action_code no_action = refl
action_from_u8-action_code reset_interval_timer = refl
action_from_u8-action_code commutate_kick = refl
action_from_u8-action_code all_off = refl

pub cell_run-kill : (steps : List CellStep) → has_kill_clear steps ≡ false → cell_run 3 steps ≡ 3
unfolding cell_run cell_after request_isr_action clear_isr_action action_code
cell_run-kill [] h = refl
cell_run-kill (request no_action ∷ rest) h = cell_run-kill rest h
cell_run-kill (request reset_interval_timer ∷ rest) h = cell_run-kill rest h
cell_run-kill (request commutate_kick ∷ rest) h = cell_run-kill rest h
cell_run-kill (request all_off ∷ rest) h = cell_run-kill rest h
cell_run-kill (clear no_action ∷ rest) h = cell_run-kill rest h
cell_run-kill (clear reset_interval_timer ∷ rest) h = cell_run-kill rest h
cell_run-kill (clear commutate_kick ∷ rest) h = cell_run-kill rest h
cell_run-kill (clear all_off ∷ rest) h = ground arith

pub request_kill : (cell : ℕ) → cell ≤ 3 → request_isr_action cell all_off ≡ 3
unfolding request_isr_action action_code
request_kill cell h = ground arith

-- A cell of at most 3 stays so.
pub cell_after_bound : (cell : ℕ) (s : CellStep) → cell ≤ 3 → cell_after cell s ≤ 3
unfolding cell_after request_isr_action clear_isr_action action_code
cell_after_bound cell (request no_action) h = ground arith
cell_after_bound cell (request reset_interval_timer) h = ground arith
cell_after_bound cell (request commutate_kick) h = ground arith
cell_after_bound cell (request all_off) h = ground arith
cell_after_bound cell (clear no_action) h = ground arith
cell_after_bound cell (clear reset_interval_timer) h = ground arith
cell_after_bound cell (clear commutate_kick) h = ground arith
cell_after_bound cell (clear all_off) h = ground arith

pub cell_run_bound : (cell : ℕ) (steps : List CellStep) → cell ≤ 3 → cell_run cell steps ≤ 3
unfolding cell_run
cell_run_bound cell [] h = h
cell_run_bound cell (s ∷ rest) h =
    cell_run_bound (cell_after cell s) rest (cell_after_bound cell s h)

pub cell_run-++ :
    (cell : ℕ) (before rest : List CellStep)
    → cell_run cell (before ++ rest) ≡ cell_run (cell_run cell before) rest
unfolding cell_run
cell_run-++ cell [] rest = refl
cell_run-++ cell (s ∷ before) rest = cell_run-++ (cell_after cell s) before rest

-- From an empty cell, after any run of requests and clears, a kill request is the action that the
-- control tick reads, whatever other requests and clears of other actions stand around it, until the
-- kill itself is cleared.
pub kill_is_pending :
    (before after : List CellStep)
    → has_kill_clear after ≡ false
    → action_from_u8 (cell_run 0 (before ++ (request all_off ∷ after))) ≡ all_off
unfolding cell_run cell_after action_from_u8
kill_is_pending before after h = ap action_from_u8 (
    cell_run-++ 0 before (request all_off ∷ after)
    ∙ ap (λ c. cell_run c after)
        (request_kill (cell_run 0 before) (cell_run_bound 0 before (omega arith)))
    ∙ cell_run-kill after h)
