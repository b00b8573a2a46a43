-- ===== src/Main/Protection.antt =====
-- The protections of `MainState::tick` in rm32/src/main_state.rs, in the order of the source: the
-- clock, stuck-rotor faults, the stall detector, the desync check and the signal timeouts.
use rm.Prelude.{
  ℕ, ◌+◌, ◌-◌, ◌*◌, ◌/◌, ◌%◌, Bool, true, false, not, ◌&&◌, ◌||◌, Option, none, some, ltb, leb,
  ◌==◌, ◌!=◌, if◌then◌else◌, sub32, sat_add8,
}
use rm.Prelude.Int.{signed32}
use rm.Platform.{Platform}
use rm.Arith.Map.{get_abs_dif}
use rm.Constants.{
  throttle_min_signal, servo_center, bemf_fault_latched, bemf_lenient_throttle,
  bemf_timeout_lenient, bemf_timeout_strict, sine_bemf_clear_throttle, bemf_stall_timer_threshold,
  desync_reset_interval, desync_max_interval, desync_stop_interval, signal_timeout_disarm,
  signal_timeout_unarmed, led_blink_half_period,
}
use rm.Config.{Config, field}
use rm.Config.At
use rm.Measure.Current.{accumulate}
use rm.Motor.Mode.{MotorEvent}
use rm.Shared.Action.{IsrAction}
use rm.Shared.State.{
  SharedState, armed, running, old_routine, transition_shared, set_old_routine, as_u32,
  e_com_time_of, request_action, request_duty_kick_down,
}
use rm.Control.Motor.{average_interval}
use rm.Main.State.{MainState, Loop, Snapshot}

-- `map_or(0, |last| now.wrapping_sub(last))`
abbrev pub elapsed_since : Option ℕ → ℕ → ℕ
elapsed_since none now = 0
elapsed_since (some last) now = sub32 now last

abbrev next_phase : ℕ → ℕ → ℕ → ℕ
next_phase phase elapsed period =
    let sum = phase + elapsed % period in
    if elapsed == 0 then phase else if leb period sum then sum - period else sum

unfoldable pub clock_stage : Platform → Loop → Loop
clock_stage p l =
    let m = l.main in
    let now = l.shared.control_ticks in
    let elapsed = elapsed_since m.last_control_tick now in
    let s = m.measurements in
    record l {
      main = record m {
        last_control_tick = some now;
        measurements = record s {
          consumed_charge = accumulate p s.consumed_charge s.actual_current elapsed;
        };
        led_phase = next_phase m.led_phase elapsed (led_blink_half_period p * 2);
        timing = record m.timing { average_interval = as_u32 (average_interval p l.shared) };
      };
    }

abbrev pub snapshot : SharedState → Snapshot
snapshot s = record { e_com = e_com_time_of s; zc = s.zero_crosses; raw_input = s.newinput }

abbrev pub bidir_dshot_input : Config → SharedState → Bool
bidir_dshot_input c s = field c At.bi_direction != 0 && s.dshot

unfoldable pub is_stick_released : Config → SharedState → ℕ → Bool
is_stick_released c s raw_input =
    let db = field c At.servo_dead_band * 2 in
    if bidir_dshot_input c s
    then raw_input == 0
    else if field c At.bi_direction != 0
    then leb (servo_center - db) raw_input && leb raw_input (servo_center + db)
    else raw_input == 0

-- The three tests that clear a stuck-rotor fault.
unfoldable pub clears_fault : Config → SharedState → Snapshot → Bool
clears_fault c s h =
    (ltb 1000 h.zc || is_stick_released c s h.raw_input)
    || (ltb 100 h.zc && ltb h.raw_input 200 && not (bidir_dshot_input c s))
    || (field c At.use_sine_start != 0
        && ltb h.raw_input sine_bemf_clear_throttle
        && not (bidir_dshot_input c s))

unfoldable pub fault_stage : Snapshot → Loop → Loop
fault_stage h l =
    let p = l.main.protection in
    let cleared = clears_fault l.main.config l.shared h in
    record l {
      main = record l.main {
        protection = record p {
          bemf_timeout_happened = if cleared then 0 else p.bemf_timeout_happened;
        };
      };
    }

-- The recovery of a stalled motor in the shared state.
unfoldable pub recover : Platform → SharedState → SharedState
recover p s =
    let t = set_old_routine s true in
    let stopped =
      transition_shared (request_action t IsrAction.reset_interval_timer) MotorEvent.stop_motor in
    let u =
      if ltb t.adjusted_input throttle_min_signal
      then record stopped { commutation_interval = desync_reset_interval p }
      else request_action t IsrAction.commutate_kick in
    record u { zero_crosses = 0 }

unfoldable pub is_stalled : Platform → SharedState → Bool
is_stalled p s = ltb (bemf_stall_timer_threshold p) s.interval_timer_count && running s

unfoldable pub stall_stage : Platform → Loop → Loop
stall_stage p l =
    let q = l.main.protection in
    let happened = q.bemf_timeout_happened in
    let counted = if happened != bemf_fault_latched then sat_add8 happened 1 else happened in
    if is_stalled p l.shared
    then record l {
      main = record l.main { protection = record q { bemf_timeout_happened = counted } };
      shared = recover p l.shared;
    }
    else l

unfoldable pub threshold_stage : Snapshot → Loop → Loop
threshold_stage h l =
    let q = l.main.protection in
    let lenient = ltb h.raw_input bemf_lenient_throttle in
    record l {
      main = record l.main {
        protection = record q {
          bemf_timeout = if lenient then bemf_timeout_lenient else bemf_timeout_strict;
        };
      };
    }

-- `DESYNC_SETTLED_CHECKS`
abbrev pub desync_settled_checks : ℕ
desync_settled_checks = 3

-- What the mode says of the timing path that is sampled.
unfoldable pub polling_seen : SharedState → MainState → MainState
polling_seen s m =
    if not (running s)
    then record m { desync_checks_after_polling = 0; polling_mode_seen = false }
    else if old_routine s
    then record m { desync_checks_after_polling = 0; polling_mode_seen = true }
    else m

-- Whether averages of one timing path only are compared, and the counters after the check.
unfoldable pub settle : SharedState → MainState → MainState × Bool
settle s m =
    let checks = sat_add8 m.desync_checks_after_polling 1 in
    let counted = record m { desync_checks_after_polling = checks } in
    if old_routine s || not m.polling_mode_seen
    then (m, true)
    else if leb desync_settled_checks checks
    then (record counted { polling_mode_seen = false }, true)
    else (counted, false)

unfoldable pub is_desynced : Platform → MainState → Bool
is_desynced p m =
    let average = m.timing.average_interval in
    ltb (average / 2) (get_abs_dif (signed32 m.timing.last_average_interval) (signed32 average))
    && ltb average (desync_max_interval p)

-- The fall back after a desync, and the stop where the throttle or the speed asks for it.
unfoldable pub fall_back : Platform → Config → SharedState → SharedState
fall_back p c s =
    let t =
      transition_shared (request_duty_kick_down (record s { zero_crosses = 0 }))
        MotorEvent.desync_fallback in
    if (field c At.bi_direction == 0 && ltb 47 t.adjusted_input)
      || ltb (desync_stop_interval p) t.commutation_interval
    then transition_shared t MotorEvent.stop_motor
    else t

unfoldable pub desync_stage : Platform → Snapshot → Loop → Loop
desync_stage p h l =
    let n = polling_seen l.shared l.main in
    let (o, settled) = settle l.shared n in
    let fallen = fall_back p l.main.config l.shared in
    let done = record o {
      desync_check = false;
      timing = record o.timing { last_average_interval = o.timing.average_interval };
    } in
    if n.desync_check && ltb 10 h.zc
    then record l { main = done; shared = if settled && is_desynced p o then fallen else l.shared }
    else record l { main = n }

unfoldable pub signal_stage : Platform → Loop → Loop
signal_stage p l =
    let s = l.shared in
    let lost = record s { input_set = false } in
    if armed s
    then (if ltb (signal_timeout_disarm p) s.signal_timeout
        then record l {
          shared = record (transition_shared s MotorEvent.disarm) { input_set = false };
          main = record l.main { needs_reset = true };
        }
        else l)
    else if s.input_set && ltb (signal_timeout_unarmed p) s.signal_timeout
    then record l { shared = lost; main = record l.main { needs_reset = true } }
    else l
