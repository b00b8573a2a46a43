-- ===== src/Main/Tick.antt =====
-- `MainState::tick` of rm32/src/main_state.rs: the stages in the order of the source. `none` is the
-- panic of the current loop where the minimum duty is above its upper bound.
pub mod Modes
pub mod Lost
pub mod Total
pub mod Safety
use rm.Prelude.{Option, none, some}
use rm.Platform.{Platform}
use rm.Measure.Filter.{FixedPoint}
use rm.Main.State.{Loop, AdcReads, Snapshot}
use rm.Main.Protection.{
  clock_stage, snapshot, fault_stage, stall_stage, threshold_stage, desync_stage, signal_stage,
}
use rm.Main.Service.{erpm_stage, cell_stage, service_stage, telemetry_stage}
use rm.Main.Publish.{publish_stage}

-- The stages before the service at 1 kHz.
unfoldable pub protect : Platform → Snapshot → Loop → Loop
protect p h l = cell_stage (
    erpm_stage h (
      signal_stage p
        (desync_stage p h (threshold_stage h (stall_stage p (fault_stage h (clock_stage p l)))))))

unfoldable pub report : Platform → Snapshot → Option Loop → Option Loop
report p h none = none
report p h (some l) = some (publish_stage p h (telemetry_stage p l))

unfoldable pub main_tick : Platform → FixedPoint → AdcReads → Loop → Option Loop
unfolding report
main_tick p fixed a l =
    let h = snapshot l.shared in report p h (service_stage p fixed a h (protect p h l))
