-- ===== src/Main/Tick/Lost.antt =====
-- A lost signal in the stages before the service: the timeouts read what the tick began with.
use rm.Prelude.{◌<◌, ◌≡◌, ◌∙◌, true, arith}
use rm.Platform.{Platform}
use rm.Constants.{signal_timeout_disarm}
use rm.Prelude.Tests.{lt→ltb}
use rm.Motor.Mode.{disarmed, is_armed}
use rm.Shared.State.{set_old_routine, transition_shared, request_action, request_duty_kick_down}
use rm.Main.Service.Cutoff.{disarm_any}
use rm.Main.State.{Loop, Snapshot}
use rm.Main.Protection.{
  clock_stage, fault_stage, stall_stage, threshold_stage, desync_stage, signal_stage, recover,
  fall_back,
}
use rm.Main.Service.{cell_stage}
use rm.Main.Tick.{protect}
use rm.Main.Tick.Modes.{mode_of, erpm_same, before_signal}

timeout_kept :
    (p : Platform) (h : Snapshot) (l : Loop)
    → (desync_stage p h l).shared.signal_timeout ≡ l.shared.signal_timeout
unfolding desync_stage fall_back request_duty_kick_down transition_shared
timeout_kept p h l = ground arith

stall_timeout :
    (p : Platform) (l : Loop) → (stall_stage p l).shared.signal_timeout ≡ l.shared.signal_timeout
unfolding stall_stage recover set_old_routine transition_shared request_action
stall_timeout p l = ground arith

lost :
    (p : Platform) (l : Loop)
    → is_armed (mode_of l) ≡ true
    → signal_timeout_disarm p < l.shared.signal_timeout
    → mode_of (signal_stage p l) ≡ disarmed
unfolding signal_stage transition_shared
lost p l h over =
    rw (h, lt→ltb (signal_timeout_disarm p) l.shared.signal_timeout over) (disarm_any (mode_of l))

pub protect_lost :
    (p : Platform) (h : Snapshot) (l : Loop)
    → is_armed (mode_of l) ≡ true
    → signal_timeout_disarm p < l.shared.signal_timeout
    → mode_of (protect p h l) ≡ disarmed
unfolding protect cell_stage threshold_stage fault_stage clock_stage
protect_lost p h l still over =
    let f = fault_stage h (clock_stage p l) in
    let t = threshold_stage h (stall_stage p f) in
    let d = desync_stage p h t in
    let (same, runs) = before_signal p h l in
    erpm_same h (signal_stage p d)
    ∙ lost p d (same ∙ still) (rw (timeout_kept p h t, stall_timeout p f) over)
