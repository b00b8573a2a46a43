-- ===== src/Examples/MainShutdown.antt =====
-- Runs of the theorems of Main.Shutdown on concrete inputs.
use rm.Bridge.{HalCall, bridge_off, disable_interrupt, latch, mask_irq, set_duty_all}
use rm.Control.Motor.{MotorContext}
use rm.Control.Tick.{ten_khz_tick}
use rm.Examples.Data.{blank, board}
use rm.Examples.Motors.{sagging, spinning, tick_reads}
use rm.Main.Service.{is_below_cutoff, lvc_limit}
use rm.Main.Service.Cutoff.{services}
use rm.Main.Shutdown.{cutoff_reaches_bridge}
use rm.Measure.Units.{below_cell_threshold}
use rm.Motor.Mode.{disarmed}
use rm.Prelude.{List, arith, false, refl, some, suc, ◌∷◌, ◌≡◌}

cutoff_reaches_bridge_example :
    (n : MotorContext) × (ten_khz_tick board blank false tick_reads
        (record spinning { shared = (services (suc (lvc_limit sagging.shared)) sagging).shared })
      ≡ some n)
    × ((earlier : List HalCall) × (n.calls
          ≡ mask_irq ∷ latch ∷ set_duty_all 0 ∷ bridge_off ∷ disable_interrupt ∷ earlier))
    × (n.shared.motor_mode ≡ disarmed)
unfolding is_below_cutoff below_cell_threshold
cutoff_reaches_bridge_example =
    cutoff_reaches_bridge board blank false tick_reads sagging spinning
      (record { enabled = refl; below = refl; fresh = refl; unlatched = refl }) (omega arith)
