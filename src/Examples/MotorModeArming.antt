-- ===== src/Examples/MotorModeArming.antt =====
-- Runs of the theorems of Motor.Mode.Arming on concrete inputs.
use rm.Motor.Mode.{MotorEvent, MotorMode, transitions}
use rm.Motor.Mode.Arming.{Justifies, nothing, seen, transitions-Justifies}
use rm.Prelude.{[], ◌∷◌}

transitions-Justifies_example :
    Justifies
      (transitions MotorMode.disarmed
        (MotorEvent.arm ∷ (MotorEvent.start_motor ∷ (MotorEvent.bemf_locked ∷ []))))
      (seen nothing (MotorEvent.arm ∷ (MotorEvent.start_motor ∷ (MotorEvent.bemf_locked ∷ []))))
transitions-Justifies_example =
    transitions-Justifies MotorMode.disarmed nothing
      (MotorEvent.arm ∷ (MotorEvent.start_motor ∷ (MotorEvent.bemf_locked ∷ []))) tt
