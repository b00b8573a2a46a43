-- ===== src/Examples/ConfigDerivedLimits.antt =====
-- Runs of the theorems of Config.Derived.Limits on concrete inputs.
use rm.Config.Derived.{derive_motor_config}
use rm.Config.Derived.Limits.{limited_by, startup_boost_panics}
use rm.Examples.Data.{boosted, duty}
use rm.Motor.Duty.{compute_setpoint}
use rm.Prelude.{arith, false, none, true, ◌≡◌}

startup_boost_panics_example :
    compute_setpoint (limited_by duty (derive_motor_config boosted 1999 60 20 true)) 900 5 0 false
    ≡ none
startup_boost_panics_example =
    startup_boost_panics boosted duty 1999 60 20 900 5 0 false (omega arith) (omega arith)
      (omega arith) (ground arith)
