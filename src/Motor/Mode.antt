-- ===== src/Motor/Mode.antt =====
-- rm32/src/motor_mode.rs: the operating modes of the motor, their u8 encoding in the shared state,
-- and the transitions between them. A run of events is a fold of `transition`.
pub mod Arming
use rm.Prelude.{ℕ, List, [], ◌∷◌, Bool, true, false, leb, ◌==◌, ◌||◌, if◌then◌else◌}

pub data MotorMode : Type 0 where
  disarmed armed stepper_sine old_routine running : MotorMode

pub data MotorEvent : Type 0 where
  arm disarm start_motor stop_motor enter_sine exit_sine bemf_locked desync_fallback : MotorEvent

-- `self as u8`: the discriminants of the enum.
unfoldable pub as_u8 : MotorMode → ℕ
as_u8 disarmed = 0
as_u8 armed = 1
as_u8 stepper_sine = 2
as_u8 old_routine = 3
as_u8 running = 4

unfoldable pub from_u8 : ℕ → MotorMode
from_u8 v =
    if v == 0
    then disarmed
    else if v == 1
    then armed
    else if v == 2
    then stepper_sine
    else if v == 3
    then old_routine
    else if v == 4
    then running
    else disarmed

unfoldable pub is_armed : MotorMode → Bool
unfolding as_u8
is_armed m = leb (as_u8 armed) (as_u8 m)

unfoldable pub is_old_routine : MotorMode → Bool
is_old_routine old_routine = true
is_old_routine _ = false

unfoldable pub is_stepper_sine : MotorMode → Bool
is_stepper_sine stepper_sine = true
is_stepper_sine _ = false

-- `self == Running`.
unfoldable pub is_running_mode : MotorMode → Bool
is_running_mode running = true
is_running_mode _ = false

unfoldable pub is_running : MotorMode → Bool
unfolding is_old_routine is_running_mode
is_running m = is_old_routine m || is_running_mode m

unfoldable pub transition : MotorMode → MotorEvent → MotorMode
transition disarmed arm = armed
transition _ disarm = disarmed
transition armed start_motor = old_routine
transition old_routine stop_motor = armed
transition running stop_motor = armed
transition armed enter_sine = stepper_sine
transition stepper_sine exit_sine = old_routine
transition old_routine bemf_locked = running
transition running desync_fallback = old_routine
transition m _ = m

unfoldable pub transitions : MotorMode → List MotorEvent → MotorMode
transitions m [] = m
transitions m (e ∷ es) = transitions (transition m e) es
