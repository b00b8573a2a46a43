-- ===== src/Control/Outputs.antt =====
-- The second half of `ten_khz_tick` in rm32/src/control/isr_logic.rs: the ramp counters, arming, the
-- polled back EMF, the ramp limiter, the outputs to the bridge and the published state.
use rm.Prelude.{
  ℕ, ◌+◌, ◌*◌, Bool, true, not, ◌&&◌, ◌||◌, ◌∷◌, ltb, ◌==◌, if◌then◌else◌, u16, u32, min_of,
}
use rm.Prelude.Int.{pos_part}
use rm.Platform.{Platform}
use rm.Arith.Fast.{div2000_u32}
use rm.Constants.{throttle_min_signal, min_zc_for_advance, arming_timeout_ticks}
use rm.Config.{Config, field}
use rm.Config.At
use rm.Bridge.{
  mask_irq, bridge_off, latch, proportional_brake, com_step, pulse_toggle, set_duty_all, set_period,
  set_count, set_and_enable, disable_interrupt,
}
use rm.Motor.Mode.{MotorEvent}
use rm.Motor.Commutation
use rm.Motor.Bemf
use rm.Motor.Duty
use rm.Shared.State.{
  SharedState, armed, running, old_routine, stepper_sine, transition_shared, increment_zero_crosses,
  increment_signal_timeout, as_u32, set_e_com_time, take_duty_kick_down,
}
use rm.Control.Motor.{
  MotorContext, Readings, pwm_mode, start_threshold, route_bemf, average_interval,
}

-- The duty kick after a desync, and the core of the tick.
unfoldable pub duty_stage : MotorContext → MotorContext
duty_stage m =
    let (s, kick) = take_duty_kick_down m.shared in
    let kicked = if kick && running s then Duty.kick_down m.duty else m.duty in
    record m {
      duty = Duty.increment_ramp_count (record kicked { cycle = s.duty_cycle_setpoint });
      shared = increment_signal_timeout s;
    }

unfoldable pub arming_stage : Platform → MotorContext → MotorContext
arming_stage p m =
    let count = u32 (m.armed_timeout_count + 1) in
    let quiet = m.shared.input_set && m.shared.adjusted_input == 0 in
    if armed m.shared
    then m
    else if not quiet
    then record m { armed_timeout_count = 0 }
    else if ltb (arming_timeout_ticks p) count
    then record m { armed_timeout_count = 0; shared = transition_shared m.shared MotorEvent.arm }
    else record m { armed_timeout_count = count }

-- The commutation of the first zero crosses, without the advance timer.
unfoldable pub polled_step : Platform → Config → MotorContext → MotorContext
polled_step p c m =
    let sector = Commutation.advance m.commutation in
    let (timed, e_com) = Commutation.record_interval p sector (u16 m.shared.commutation_interval) in
    record m {
      commutation = timed;
      bemf = Bemf.reset_for_step m.bemf;
      shared = increment_zero_crosses (set_e_com_time m.shared e_com);
      calls =
          route_bemf timed ∷ pulse_toggle sector.step ∷ com_step sector.step (pwm_mode c) ∷ m.calls;
    }

-- What `bemf_polling` does once a zero cross is found.
unfoldable pub polled_zero_cross : Platform → Config → ℕ → MotorContext → MotorContext
polled_zero_cross p c interval_count m =
    let (bemf, new_ci) =
      Bemf.record_zero_cross m.bemf (min_of interval_count 65535) m.shared.commutation_interval in
    let timed = record m {
      bemf = bemf;
      shared = record m.shared { commutation_interval = new_ci };
      calls = set_count 0 ∷ m.calls;
    } in
    let delayed = record timed {
      calls = set_and_enable (Bemf.com_timer_delay bemf) ∷ timed.calls;
    } in
    if ltb m.shared.zero_crosses min_zc_for_advance then polled_step p c timed else delayed

unfoldable pub bemf_polling : Platform → Config → Readings → MotorContext → MotorContext
bemf_polling p c r m =
    let rising = m.commutation.rising in
    let n = record m {
      bemf = Bemf.update m.bemf r.comp_level rising;
      calls = mask_irq ∷ m.calls;
    } in
    if Bemf.zero_cross_detected n.bemf rising then polled_zero_cross p c r.count_at_poll n else n

unfoldable pub polling_stage : Platform → Config → Readings → Bool → MotorContext → MotorContext
polling_stage p c r handoff m =
    if not handoff && old_routine m.shared && running m.shared && not (stepper_sine m.shared)
    then bemf_polling p c r m
    else m

-- The ramp limiter, the published settings, and the ceilings.
unfoldable pub ramp_stage : Platform → Bool → MotorContext → MotorContext
ramp_stage p voltage_based_ramp m =
    let average = average_interval p m.shared in
    let s = record m.shared { gate_avg = pos_part average } in
    let ramped =
      Duty.ramp_limit p m.duty s.battery_voltage s.commutation_interval s.zero_crosses
        (as_u32 average) voltage_based_ramp in
    let boost = if running s then s.stall_protection_adjust else 0 in
    record m {
      shared = s;
      bemf = Bemf.sync_config m.bemf s.filter_level s.auto_advance s.min_bemf_counts;
      duty = Duty.clamp_ceilings ramped boost s.duty_maximum s.current_limit_adjust;
    }

-- `bridge_busy` of rm32/src/tone.rs.
unfoldable pub bridge_busy : SharedState → Bool → Bool
bridge_busy s active_brake_on =
    not (armed s) || running s || stepper_sine s || s.prop_brake_active || active_brake_on

abbrev pub is_sine_drive : SharedState → ℕ → Bool
is_sine_drive s input = stepper_sine s && ltb throttle_min_signal input

abbrev pub is_active_brake : Config → SharedState → ℕ → Bool
is_active_brake c s input =
    armed s
    && not (running s)
    && ltb input (start_threshold c)
    && not (is_sine_drive s input)
    && field c At.brake_on_stop == 2

-- The compare value of the active brake.
unfoldable pub active_brake_duty : Config → ℕ → ℕ
active_brake_duty c tim1_arr =
    let duty = u32 (div2000_u32 (field c At.active_brake_power * tim1_arr) * 10) in
    min_of duty tim1_arr

unfoldable pub brake_arm : Config → MotorContext → MotorContext
brake_arm c m =
    let engaged = record m {
      duty = record m.duty { active_brake_on = true };
      calls =
          com_step 2 (pwm_mode c) ∷ latch ∷ set_duty_all 0 ∷ mask_irq ∷ disable_interrupt ∷ m.calls;
    } in
    let n = if m.duty.active_brake_on then m else engaged in
    record n { calls = set_duty_all (active_brake_duty c n.shared.tim1_arr) ∷ n.calls }

-- The choice of what drives the bridge, without a tone.
unfoldable pub drive_arm : Config → ℕ → MotorContext → MotorContext
drive_arm c input m =
    let arr = m.shared.tim1_arr in
    let drive = set_duty_all (Duty.pwm_compare m.duty arr) in
    let drag = set_duty_all (Duty.brake_compare (field c At.drag_brake_strength) arr) in
    if is_sine_drive m.shared input
    then m
    else if is_active_brake c m.shared input
    then brake_arm c m
    else if armed m.shared && running m.shared
    then record m { calls = drive ∷ m.calls }
    else if m.shared.prop_brake_active
    then record m { calls = drag ∷ proportional_brake ∷ m.calls }
    else record m { calls = set_duty_all 0 ∷ bridge_off ∷ m.calls }

-- The flags that fall when the sine drive or the brake ends.
unfoldable pub output_flags : Config → ℕ → MotorContext → MotorContext
output_flags c input m = record m {
  duty = record m.duty {
    sine_outputs_on = is_sine_drive m.shared input && m.duty.sine_outputs_on;
    active_brake_on = is_active_brake c m.shared input && m.duty.active_brake_on;
  };
}

unfoldable pub tone_owns_bridge : Config → ℕ → MotorContext → Bool
tone_owns_bridge c input m =
    m.shared.tone_active
    && not (bridge_busy m.shared (is_active_brake c m.shared input || m.duty.active_brake_on))

-- From the output flags to the end of the tick.
unfoldable pub output_stage : Config → ℕ → Readings → MotorContext → MotorContext
output_stage c input r m =
    let n = output_flags c input m in
    let owned = tone_owns_bridge c input n in
    let d = if owned then n else drive_arm c input n in
    let (duty, final_duty) = Duty.finalize d.duty in
    let s = record d.shared { duty_cycle = final_duty } in
    let cs = if owned then d.calls else set_period s.tim1_arr ∷ d.calls in
    record d {
      duty = duty;
      shared = record s { forward = d.commutation.forward; interval_timer_count = r.count_at_exit };
      calls = cs;
    }
