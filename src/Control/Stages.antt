-- ===== src/Control/Stages.antt =====
-- The stages of `ten_khz_tick` in rm32/src/control/isr_logic.rs, in the order of the source.
use rm.Prelude.{
  ℕ, ◌/◌, Bool, true, false, not, ◌&&◌, Option, none, some, ◌∷◌, ltb, leb, ◌!=◌, if◌then◌else◌, u16,
  min_of,
}
use rm.Platform.{Platform}
use rm.Constants.{sine_changeover_throttle, startup_commutation_interval, telemetry_interval_ticks}
use rm.Config.{Config, field}
use rm.Config.At
use rm.Bridge.{
  mask_irq, bridge_off, latch, com_step, set_duty_all, set_count, set_and_enable, disable_interrupt,
}
use rm.Motor.Mode.{MotorEvent}
use rm.Motor.Commutation
use rm.Motor.Bemf
use rm.Motor.Duty
use rm.Shared.Action.{IsrAction}
use rm.Shared.State.{
  SharedState, armed, running, stepper_sine, increment_control_ticks, one_khz_counter_inc,
  telem_counter_check_and_inc, transition_shared, set_e_com_time, clear_action, take_duty_kick_down,
}
use rm.Control.Motor.{MotorContext, pwm_mode, sine_start, start_threshold, route_bemf}

-- The counters at the head of a tick.
unfoldable pub tick_counters : Platform → Config → SharedState → SharedState
tick_counters p c s =
    let t = one_khz_counter_inc (increment_control_ticks s) in
    let interval = field c At.telemetry_on_interval in
    let (u, due) = telem_counter_check_and_inc t (telemetry_interval_ticks p interval) in
    let on = interval != 0 in
    record t {
      telem_counter = if on then u.telem_counter else t.telem_counter;
      send_telemetry = if on && due then true else t.send_telemetry;
    }

-- Comparator interrupts stay masked while the motor does not commutate.
unfoldable pub mask_idle : MotorContext → MotorContext
mask_idle m = record m { calls = if running m.shared then m.calls else mask_irq ∷ m.calls }

-- The match arm of `IsrAction::AllOff`, after which the tick returns.
unfoldable pub all_off_arm : MotorContext → MotorContext
all_off_arm m =
    let (s, kick) = take_duty_kick_down m.shared in
    record m {
      shared = clear_action (record s { changeover_step = 0 }) IsrAction.all_off;
      duty = record m.duty { sine_outputs_on = false; active_brake_on = false };
      calls = mask_irq ∷ latch ∷ set_duty_all 0 ∷ bridge_off ∷ disable_interrupt ∷ m.calls;
    }

unfoldable pub reset_timer_arm : MotorContext → MotorContext
reset_timer_arm m = record m {
  shared = clear_action m.shared IsrAction.reset_interval_timer;
  calls = set_count 0 ∷ m.calls;
}

-- `COMMUTATE_KICK_DELAY_TICKS`
abbrev pub commutate_kick_delay_ticks : ℕ
commutate_kick_delay_ticks = 1

unfoldable pub commutate_kick_arm : MotorContext → ℕ → MotorContext
commutate_kick_arm m interval_count =
    let (bemf, new_ci) =
      Bemf.record_zero_cross m.bemf (min_of interval_count 65535) m.shared.commutation_interval in
    let kicked = record m {
      bemf = bemf;
      shared = record m.shared { commutation_interval = new_ci };
      calls = set_and_enable commutate_kick_delay_ticks ∷ m.calls;
    } in
    let n = if running m.shared then kicked else m in
    record n {
      shared = clear_action n.shared IsrAction.commutate_kick;
      calls = set_count 0 ∷ n.calls;
    }

-- The actions after which the tick goes on.
unfoldable pub take_action : MotorContext → IsrAction → ℕ → MotorContext
take_action m IsrAction.no_action interval_count = m
take_action m IsrAction.reset_interval_timer interval_count = reset_timer_arm m
take_action m IsrAction.commutate_kick interval_count = commutate_kick_arm m interval_count
take_action m IsrAction.all_off interval_count = all_off_arm m

unfoldable pub is_handoff : SharedState → Bool
is_handoff s =
    leb 1 s.changeover_step
    && leb s.changeover_step 6
    && stepper_sine s
    && ltb sine_changeover_throttle s.adjusted_input

-- The body under `if handoff`.
unfoldable pub hand_off : Config → MotorContext → MotorContext
hand_off c m =
    let step = m.shared.changeover_step in
    let sector = Commutation.set_step m.commutation step in
    let ci = m.shared.commutation_interval in
    record m {
      commutation = sector;
      bemf = Bemf.reset_for_step m.bemf;
      shared = transition_shared m.shared MotorEvent.exit_sine;
      calls =
          set_and_enable (u16 ci)
          ∷ route_bemf sector
          ∷ set_count ci
          ∷ com_step step (pwm_mode c)
          ∷ latch
          ∷ set_duty_all 0
          ∷ mask_irq
          ∷ disable_interrupt
          ∷ m.calls;
    }

-- From the direction to the end of the handoff, with the flag that it took place.
unfoldable pub handoff_stage : Config → MotorContext → MotorContext × Bool
handoff_stage c m =
    let n = record m { commutation = Commutation.set_forward m.commutation m.shared.forward } in
    let took = is_handoff m.shared in
    let h = if took then hand_off c n else n in
    (
      record h {
        shared = record h.shared { changeover_step = 0 };
        commutation = Commutation.set_forward h.commutation h.shared.forward;
      },
      took,
    )

-- A throttle below the sine threshold leaves six-step drive.
unfoldable pub sine_entry_stage : Config → ℕ → MotorContext → MotorContext
sine_entry_stage c input m =
    let undriven = record m {
      duty = record m.duty { sine_outputs_on = false };
      calls = latch ∷ set_duty_all 0 ∷ bridge_off ∷ m.calls;
    } in
    let n = if stepper_sine m.shared then m else undriven in
    let s =
      transition_shared (transition_shared n.shared MotorEvent.stop_motor) MotorEvent.enter_sine in
    let entered = record n {
      shared = record s { duty_cycle_setpoint = 0; zero_crosses = 0 };
      bemf = Bemf.reset_for_step n.bemf;
      calls = mask_irq ∷ disable_interrupt ∷ n.calls;
    } in
    if armed m.shared && sine_start c && ltb input (start_threshold c) then entered else m

-- The start of a stopped motor. The setpoint is already in the shared state.
unfoldable pub start_arm : Platform → Config → MotorContext → MotorContext
start_arm p c m =
    let sector = Commutation.advance m.commutation in
    let (timed, e_com) = Commutation.record_interval p sector (u16 m.shared.commutation_interval) in
    let s = set_e_com_time (transition_shared m.shared MotorEvent.start_motor) e_com in
    let cs = bridge_off ∷ m.calls in
    record m {
      commutation = timed;
      duty = Duty.start_motor (record m.duty { active_brake_on = false });
      shared = record s { commutation_interval = startup_commutation_interval p };
      calls =
          set_count (startup_commutation_interval p / 2)
          ∷ route_bemf timed
          ∷ com_step sector.step (pwm_mode c)
          ∷ (if m.duty.active_brake_on then latch ∷ set_duty_all 0 ∷ cs else cs);
    }

abbrev pub set_setpoint : MotorContext → ℕ → MotorContext
set_setpoint m setpoint = record m { shared = record m.shared { duty_cycle_setpoint = setpoint } }

unfoldable pub throttle_apply : Platform → Config → MotorContext → Option ℕ → Option MotorContext
throttle_apply p c m none = none
throttle_apply p c m (some setpoint) =
    let n = set_setpoint m setpoint in some (if running m.shared then n else start_arm p c n)

-- A throttle below the start: a stopped motor also drops the counters of the last run.
unfoldable pub throttle_idle : MotorContext → MotorContext
throttle_idle m =
    let n = set_setpoint m 0 in
    if running m.shared then n else record n {
      shared = record n.shared { zero_crosses = 0 };
      bemf = Bemf.reset_for_step n.bemf;
    }

-- The setpoint of the throttle, and the start or the idle housekeeping. The duty computation panics
-- where its startup limits are reversed.
unfoldable pub throttle_stage : Platform → Config → ℕ → MotorContext → Option MotorContext
throttle_stage p c input m =
    if armed m.shared && not (stepper_sine m.shared)
    then (if leb (start_threshold c) input
        then throttle_apply p c m (
            Duty.compute_setpoint m.duty input m.shared.zero_crosses (field c At.stall_protection)
              (sine_start c))
        else some (throttle_idle m))
    else some m
