-- ===== src/Main/Tick/Total.antt =====
-- A tick of the main loop panics at most in the clamp of the current loop, and not with a minimum
-- duty within the duty scale.
use rm.Prelude.{ℕ, ◌≤◌, ◌≡◌, refl, ◌∙◌, Bool, false, Option, some, arith, min_of}
use rm.Prelude.Int.{ℤ, pos, ltb_ℤ}
use rm.Platform.{Platform}
use rm.Constants.{pid_loop_divider}
use rm.Measure.Filter.{FixedPoint}
use rm.Prelude.Tests.{Bool-cases}
use rm.Prelude.{inl, inr, ◌*◌, ◌&&◌}
use rm.Config.{field}
use rm.Config.At
use rm.Motor.Pids.{PidState, tick_current_limit}
use rm.Shared.State.{running, one_khz_counter_check_and_reset}
use rm.Main.State.{Loop, AdcReads, Snapshot}
use rm.Main.Protection.{
  clock_stage, snapshot, fault_stage, stall_stage, threshold_stage, desync_stage, signal_stage,
  polling_seen, settle,
}
use rm.Main.Service.{
  erpm_stage, cell_stage, service_stage, voltage_stage, measure_stage, stall_pid_stage,
  current_pid_stage, limit_current, then_speed,
}
use rm.Main.Tick.{protect, report, main_tick}

abbrev duty_of : Loop → ℕ
duty_of l = l.main.minimum_duty

stall_duty : (p : Platform) (l : Loop) → duty_of (stall_stage p l) ≡ duty_of l
unfolding stall_stage
stall_duty p l = ground arith

desync_duty : (p : Platform) (h : Snapshot) (l : Loop) → duty_of (desync_stage p h l) ≡ duty_of l
unfolding desync_stage polling_seen settle
desync_duty p h l = ground arith

signal_duty : (p : Platform) (l : Loop) → duty_of (signal_stage p l) ≡ duty_of l
unfolding signal_stage
signal_duty p l = ground arith

erpm_duty : (h : Snapshot) (l : Loop) → duty_of (erpm_stage h l) ≡ duty_of l
unfolding erpm_stage
erpm_duty h l = ground arith

voltage_duty : (l : Loop) → duty_of (voltage_stage l) ≡ duty_of l
unfolding voltage_stage
voltage_duty l = ground arith

stall_pid_duty : (p : Platform) (l : Loop) → duty_of (stall_pid_stage p l) ≡ duty_of l
unfolding stall_pid_stage
stall_pid_duty p l = ground arith

protect_duty : (p : Platform) (h : Snapshot) (l : Loop) → duty_of (protect p h l) ≡ duty_of l
unfolding protect cell_stage threshold_stage fault_stage clock_stage
protect_duty p h l =
    let s = stall_stage p (fault_stage h (clock_stage p l)) in
    let d = desync_stage p h (threshold_stage h s) in
    erpm_duty h (signal_stage p d)
    ∙ signal_duty p d
    ∙ desync_duty p h (threshold_stage h s)
    ∙ stall_duty p (fault_stage h (clock_stage p l))

within_scale : (d : ℕ) → d ≤ 2000 → ltb_ℤ (pos 2000) (pos (min_of d 32767)) ≡ false
within_scale d h = ground arith

limits :
    (s : PidState) (current target : ℤ) (d : ℕ) (run : Bool)
    → d ≤ 2000
    → (r : PidState × ℕ) × (tick_current_limit s current target (pos (min_of d 32767)) run ≡ some r)
unfolding tick_current_limit
limits s current target d run h = elim (Bool-cases (s.use_current_limit && run)) [
  | inl used ↦ rw (used, within_scale d h) (_, refl)
  | inr unused ↦ rw unused (_, refl)
]

-- The rest of a service after the current loop that has a result.
served :
    (p : Platform) (h : Snapshot) (l : Loop) (o : Option (PidState × ℕ)) (r : PidState × ℕ)
    → o ≡ some r
    → (after : Loop) × (report p h (then_speed h (limit_current l o)) ≡ some after)
unfolding report then_speed limit_current
served p h l o r e = rw e (_, refl)

service_total :
    (p : Platform) (fixed : FixedPoint) (a : AdcReads) (h : Snapshot) (l : Loop)
    → duty_of l ≤ 2000
    → (after : Loop) × (report p h (service_stage p fixed a h l) ≡ some after)
unfolding service_stage current_pid_stage measure_stage report
service_total p fixed a h l small =
    let (s, due) = one_khz_counter_check_and_reset l.shared (pid_loop_divider p) in
    let m = measure_stage fixed a (record l { shared = s }) in
    let w = stall_pid_stage p (voltage_stage m) in
    let same = stall_pid_duty p (voltage_stage m) ∙ voltage_duty m in
    elim (Bool-cases due) [
      | inl on ↦
          (let (r, found) =
              limits w.main.pid w.main.measurements.actual_current
                (pos (field w.main.config At.current_limit * 200)) (duty_of w) (running w.shared)
                (omega (arith, same, small)) in
            rw on (served p h w _ r found))
      | inr off ↦ rw off (_, refl)
    ]

pub main_tick_total :
    (p : Platform) (fixed : FixedPoint) (a : AdcReads) (l : Loop)
    → l.main.minimum_duty ≤ 2000
    → (after : Loop) × (main_tick p fixed a l ≡ some after)
unfolding main_tick
main_tick_total p fixed a l small =
    let h = snapshot l.shared in
    service_total p fixed a h (protect p h l) (omega (arith, protect_duty p h l, small))
