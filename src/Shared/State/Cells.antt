-- ===== src/Shared/State/Cells.antt =====
-- The laws of the shared cells: what a mode setter may do to the mode.
use rm.Prelude.{Bool, true, false, ◌≡◌, refl}
use rm.Motor.Mode.{
  MotorMode, disarmed, armed, stepper_sine, old_routine, running, is_armed, is_running,
  is_stepper_sine, is_old_routine, is_running_mode, as_u8,
}
use rm.Shared.State.{SharedState, set_armed, set_running, set_old_routine, set_stepper_sine}

unfoldable Settles : SharedState → Bool → Type 0
Settles s v =
    (is_armed ((set_armed s v).motor_mode) ≡ v)
    × (is_running ((set_running s v).motor_mode) ≡ v)
    × (is_stepper_sine ((set_stepper_sine s v).motor_mode) ≡ v)
    × (is_running ((set_old_routine s v).motor_mode) ≡ is_running s.motor_mode)

setters-Settles :
    (s : SharedState) (m : MotorMode) (v : Bool) → Settles (record s { motor_mode = m }) v
unfolding Settles set_armed set_running set_old_routine set_stepper_sine is_armed is_running
    is_stepper_sine is_old_routine as_u8 is_running_mode
setters-Settles s disarmed true = (refl, refl, refl, refl)
setters-Settles s armed true = (refl, refl, refl, refl)
setters-Settles s stepper_sine true = (refl, refl, refl, refl)
setters-Settles s old_routine true = (refl, refl, refl, refl)
setters-Settles s running true = (refl, refl, refl, refl)
setters-Settles s disarmed false = (refl, refl, refl, refl)
setters-Settles s armed false = (refl, refl, refl, refl)
setters-Settles s stepper_sine false = (refl, refl, refl, refl)
setters-Settles s old_routine false = (refl, refl, refl, refl)
setters-Settles s running false = (refl, refl, refl, refl)

-- What the four setters leave as the mode, for every mode before: the armed, the running and the
-- sine flag get the value that was set, and the old-routine setter never starts or stops the motor.
pub mode_setters :
    (s : SharedState) (v : Bool)
    → (is_armed ((set_armed s v).motor_mode) ≡ v)
      × (is_running ((set_running s v).motor_mode) ≡ v)
      × (is_stepper_sine ((set_stepper_sine s v).motor_mode) ≡ v)
      × (is_running ((set_old_routine s v).motor_mode) ≡ is_running s.motor_mode)
unfolding Settles
mode_setters s v = setters-Settles s s.motor_mode v
