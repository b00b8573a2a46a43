-- ===== src/Main/Service.antt =====
-- The service at 1 kHz of `MainState::tick` in rm32/src/main_state.rs: measurements, the low-voltage
-- cutoff and the control loops; then the speed, the cell count and the serial telemetry.
pub mod Cutoff
use rm.Prelude.{
  ℕ, ◌+◌, ◌*◌, ◌/◌, Bool, true, false, not, ◌&&◌, Option, none, some, List, [], ◌∷◌, ltb, ◌==◌,
  ◌!=◌, if◌then◌else◌, u8, u16, u32, min_of,
}
use rm.Prelude.Int.{ℤ, pos, pos_part, ltb_ℤ, i16, signed32}
use rm.Platform.{Platform}
use rm.Constants.{lvc_normal_threshold, lvc_startup_threshold, pid_loop_divider}
use rm.Config.{Config, field}
use rm.Config.At
use rm.Motor.Mode.{MotorEvent}
use rm.Motor.Pids
use rm.Measure.Units.{below_cell_threshold, to_centivolts, to_centiamps, unsigned_centiamps}
use rm.Measure.Current.{update_current, milliamp_hours}
use rm.Measure.Filter.{FixedPoint, update_ewma}
use rm.Measure.Ntc.{ntc_degrees}
use rm.Shared.Action.{IsrAction}
use rm.Shared.State.{
  SharedState, armed, running, stepper_sine, transition_shared, e_com_time_of, set_actual_current,
  set_degrees_celsius, request_action, one_khz_counter_check_and_reset,
}
use rm.Telemetry.Packet.{make_telem_package}
use rm.Main.State.{MainState, Measurements, Loop, AdcReads, Snapshot}

unfoldable pub erpm_stage : Snapshot → Loop → Loop
erpm_stage h l =
    let t = l.main.timing in
    let speed = if running l.shared then u16 (600000 / pos_part h.e_com) else 0 in
    if not (stepper_sine l.shared) && ltb_ℤ (pos 0) h.e_com
    then record l { main = record l.main { timing = record t { e_rpm = speed } } }
    else l

unfoldable pub cell_stage : Loop → Loop
cell_stage l =
    let m = l.main in
    let now = armed l.shared in
    let just = now && not m.last_armed in
    let detect = just && m.cell_count == 0 && field m.config At.low_voltage_cut_off == 1 in
    record l {
      main = record m {
        just_armed = just;
        cell_count = if detect then u8 (m.measurements.battery_voltage / 370) else m.cell_count;
        last_armed = now;
      };
    }

-- The filtered and converted readings, and their published copies.
unfoldable pub measure_stage : FixedPoint → AdcReads → Loop → Loop
measure_stage fixed a l =
    let m = l.main in
    let s = m.measurements in
    let (voltage_filter, smoothed_v) = update_ewma fixed 3 s.voltage_filter a.raw_voltage in
    let (current_filter, smoothed_c) = update_current s.current_filter a.raw_current in
    let voltage = to_centivolts smoothed_v m.voltage_divider_x100 in
    let current = to_centiamps smoothed_c m.current_offset m.millivolt_per_amp in
    let degrees =
      if m.use_ntc
      then pos (ntc_degrees a.raw_temperature)
      else a.calc_temperature a.raw_temperature in
    let published = set_degrees_celsius (set_actual_current l.shared current) degrees in
    record l {
      main = record m {
        measurements = record s {
          voltage_filter = voltage_filter;
          current_filter = current_filter;
          battery_voltage = voltage;
          actual_current = current;
          degrees_celsius = degrees;
        };
      };
      shared = record published { battery_voltage = voltage };
    }

unfoldable pub is_below_cutoff : MainState → Bool
is_below_cutoff m =
    let voltage = m.measurements.battery_voltage in
    let threshold = field m.config At.absolute_voltage_cutoff * 50 in
    if field m.config At.low_voltage_cut_off == 2
    then ltb 0 threshold && ltb voltage threshold
    else below_cell_threshold voltage m.cell_count m.low_cell_volt_cutoff

-- The count of readings below the cutoff.
unfoldable pub low_count : MainState → ℕ
low_count m =
    let q = m.protection in
    if is_below_cutoff m
    then u16 (q.low_voltage_count + 1)
    else if not q.low_voltage_cutoff
    then 0
    else q.low_voltage_count

unfoldable pub lvc_limit : SharedState → ℕ
lvc_limit s = if stepper_sine s then lvc_startup_threshold else lvc_normal_threshold

unfoldable pub voltage_stage : Loop → Loop
voltage_stage l =
    let m = l.main in
    let count = low_count m in
    let counted = record m { protection = record m.protection { low_voltage_count = count } } in
    let cut = record m {
      protection = record m.protection { low_voltage_count = count; low_voltage_cutoff = true };
    } in
    if field m.config At.low_voltage_cut_off != 0
    then (if ltb (lvc_limit l.shared) count
        then record l {
          main = cut;
          shared = transition_shared (request_action l.shared IsrAction.all_off) MotorEvent.disarm;
        }
        else record l { main = counted })
    else l

unfoldable pub stall_pid_stage : Platform → Loop → Loop
stall_pid_stage p l =
    let ci = l.shared.commutation_interval in
    let interval = if p.timer_hz == 2000000 then ci else u32 (ci * 2000000 / p.timer_hz) in
    let (pid, boost) = Pids.tick_stall l.main.pid (signed32 interval) in
    if field l.main.config At.stall_protection != 0 && running l.shared
    then record l {
      main = record l.main { pid = pid };
      shared = record l.shared { stall_protection_adjust = boost };
    }
    else l

-- The result of the current loop, `none` being the panic of its clamp.
unfoldable pub limit_current : Loop → Option (Pids.PidState × ℕ) → Option Loop
limit_current l none = none
limit_current l (some (pid, ceiling)) = some (record l {
  main = record l.main { pid = pid };
  shared = record l.shared { current_limit_adjust = ceiling };
})

unfoldable pub current_pid_stage : Loop → Option Loop
unfolding limit_current
current_pid_stage l =
    let m = l.main in
    limit_current l (
      Pids.tick_current_limit m.pid m.measurements.actual_current
        (pos (field m.config At.current_limit * 200)) (pos (min_of m.minimum_duty 32767))
        (running l.shared))

-- `override_input.clamp(48, 2047)`
abbrev pub override_of : SharedState → Option ℕ → SharedState
override_of s none = s
override_of s (some v) = record s {
  newinput = if ltb v 48 then 48 else if ltb 2047 v then 2047 else v;
}

unfoldable pub speed_pid_stage : Snapshot → Loop → Loop
speed_pid_stage h l =
    let (pid, out) =
      Pids.tick_speed_control l.main.pid (e_com_time_of l.shared) h.zc (running l.shared) in
    record l { main = record l.main { pid = pid }; shared = override_of l.shared out }

unfoldable pub then_speed : Snapshot → Option Loop → Option Loop
then_speed h none = none
then_speed h (some l) = some (speed_pid_stage h l)

unfoldable pub service_stage : Platform → FixedPoint → AdcReads → Snapshot → Loop → Option Loop
service_stage p fixed a h l =
    let (s, due) = one_khz_counter_check_and_reset l.shared (pid_loop_divider p) in
    let n = record l { shared = s } in
    if due
    then then_speed h
        (current_pid_stage (stall_pid_stage p (voltage_stage (measure_stage fixed a n))))
    else some n

-- `to_i8` and the byte of the packet are the low eight bits, which `make_telem_package` takes.
unfoldable pub telemetry_stage : Platform → Loop → Loop
telemetry_stage p l =
    let s = l.main.measurements in
    let packet =
      make_telem_package s.degrees_celsius s.battery_voltage (unsigned_centiamps s.actual_current)
        (milliamp_hours p s.consumed_charge) l.main.timing.e_rpm in
    if l.shared.send_telemetry
    then record l { sent = packet ∷ l.sent; shared = record l.shared { send_telemetry = false } }
    else l
