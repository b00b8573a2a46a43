-- ===== src/Shared/Action.antt =====
-- `IsrAction` of rm32/src/shared_comm.rs, its code, and the cell of shared_state.rs that holds a
-- request: `fetch_max` keeps the highest one, and a clear is a `compare_exchange`.
pub mod Priority
use rm.Prelude.{ℕ, leb, ◌==◌, if◌then◌else◌}

pub data IsrAction : Type 0 where
  no_action reset_interval_timer commutate_kick all_off : IsrAction

-- `self as u8`: the discriminants of the enum.
unfoldable pub action_code : IsrAction → ℕ
action_code no_action = 0
action_code reset_interval_timer = 1
action_code commutate_kick = 2
action_code all_off = 3

unfoldable pub action_from_u8 : ℕ → IsrAction
action_from_u8 value =
    if value == 1
    then reset_interval_timer
    else if value == 2
    then commutate_kick
    else if value == 3
    then all_off
    else no_action

unfoldable pub request_isr_action : ℕ → IsrAction → ℕ
unfolding action_code
request_isr_action cell a = if leb cell (action_code a) then action_code a else cell

unfoldable pub clear_isr_action : ℕ → IsrAction → ℕ
unfolding action_code
clear_isr_action cell a = if cell == action_code a then 0 else cell
