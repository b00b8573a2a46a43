-- ===== src/Main/Shutdown.antt =====
-- The main loop and the control interrupt together: how a low battery reaches the bridge.
use rm.Prelude.{suc, ◌≤◌, ◌≡◌, ap, ◌∙◌, Bool, some, List, ◌∷◌, arith}
use rm.Platform.{Platform}
use rm.Config.{Config}
use rm.Bridge.{HalCall, mask_irq, bridge_off, latch, set_duty_all, disable_interrupt}
use rm.Motor.Mode.{disarmed}
use rm.Shared.Action.{action_from_u8}
use rm.Shared.Action.Priority.{request_kill}
use rm.Control.Motor.{MotorContext, Readings}
use rm.Control.Tick.{ten_khz_tick}
use rm.Control.Tick.Safety.{Killed, ten_khz_tick_kill}
use rm.Main.State.{Loop}
use rm.Main.Service.{lvc_limit}
use rm.Main.Service.Cutoff.{IsSagging, services, voltage_stage_cutoff}

-- Once the voltage has been low for one service more than the limit, the next control tick ends with
-- the bridge off and the motor disarmed, whatever action was requested before, and whatever state the
-- interrupt's side is in.
pub cutoff_reaches_bridge :
    (p : Platform) (c : Config) (voltage_based_ramp : Bool) (r : Readings) (l : Loop)
    (m : MotorContext)
    → IsSagging l
    → l.shared.isr_action_cell ≤ 3
    → (n : MotorContext) × (ten_khz_tick p c voltage_based_ramp r
          (record m { shared = (services (suc (lvc_limit l.shared)) l).shared })
        ≡ some n)
      × ((earlier : List HalCall) × (n.calls
            ≡ mask_irq ∷ latch ∷ set_duty_all 0 ∷ bridge_off ∷ disable_interrupt ∷ earlier))
      × (n.shared.motor_mode ≡ disarmed)
unfolding Killed action_from_u8
cutoff_reaches_bridge p c voltage_based_ramp r l m sag small =
    let (kept, unlatched, mode, request, latched) = voltage_stage_cutoff l 0 sag (omega arith) in
    let cut = record m { shared = (services (suc (lvc_limit l.shared)) l).shared } in
    let pending = ap action_from_u8 (request ∙ request_kill l.shared.isr_action_cell small) in
    let (n, done, off, (idle, same, kick, step, brake, sector, bemf)) =
      ten_khz_tick_kill p c voltage_based_ramp r cut pending in
    (n, done, off, same ∙ mode)
