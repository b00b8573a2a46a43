-- ===== src/Examples/BridgeSectors.antt =====
-- Runs of the theorems of Bridge.Sectors on concrete inputs.
use rm.Bridge.{PwmMode}
use rm.Bridge.Sectors.{is_sector, step_legs-floating_phase}
use rm.Prelude.{arith, true, ◌≡◌}

step_legs-floating_phase_example : is_sector PwmMode.diode 3 ≡ true
step_legs-floating_phase_example =
    step_legs-floating_phase 3 PwmMode.diode (omega arith) (omega arith)
