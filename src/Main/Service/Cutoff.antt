-- ===== src/Main/Service/Cutoff.antt =====
-- The low-voltage cutoff over a run of services.
use rm.Prelude.{ℕ, zero, suc, ◌+◌, ◌≤◌, ◌<◌, ◌≡◌, refl, ap, ◌∙◌, true, false, arith, ◌!=◌, u16}
use rm.Config.{field}
use rm.Config.At
use rm.Prelude.Tests.{le→ltb, lt→ltb}
use rm.Motor.Mode.{
  MotorMode, MotorEvent, disarmed, armed, stepper_sine, old_routine, running, transition,
}
use rm.Shared.Action.{IsrAction, request_isr_action}
use rm.Shared.State.{SharedState, transition_shared, request_action}
use rm.Main.State.{Loop}
use rm.Main.Service.{is_below_cutoff, low_count, lvc_limit, voltage_stage}

unfoldable pub services : ℕ → Loop → Loop
services zero l = l
services (suc n) l = voltage_stage (services n l)

abbrev count_of : Loop → ℕ
count_of l = l.main.protection.low_voltage_count

-- Low readings of a configured cutoff, from a count of zero.
pub record IsSagging (l : Loop) : Type 0 where
  pub enabled : (field l.main.config At.low_voltage_cut_off != 0) ≡ true
  pub below : is_below_cutoff l.main ≡ true
  pub fresh : l.main.protection.low_voltage_count ≡ 0
  pub unlatched : l.main.protection.low_voltage_cutoff ≡ false

abbrev with_count : Loop → ℕ → Loop
with_count l n = record l {
  main = record l.main { protection = record l.main.protection { low_voltage_count = n } };
}

same_reading : (l : Loop) (n : ℕ) → is_below_cutoff (with_count l n).main ≡ is_below_cutoff l.main
unfolding is_below_cutoff
same_reading l n = refl

u16_id : (n : ℕ) → n < 65535 → u16 (n + 1) ≡ suc n
u16_id n h = omega arith

one_more : (l : Loop) (n : ℕ) → IsSagging l → n < 65535 → low_count (with_count l n).main ≡ suc n
unfolding low_count
one_more l n h small = rw (same_reading l n, h.below) (u16_id n small)

not_yet :
    (l : Loop) (n : ℕ)
    → IsSagging l
    → suc n ≤ lvc_limit l.shared
    → n < 65535
    → voltage_stage (with_count l n) ≡ with_count l (suc n)
unfolding voltage_stage
not_yet l n h under small =
    rw (h.enabled, one_more l n h small, le→ltb (lvc_limit l.shared) (suc n) under)

limit-le : (s : SharedState) → lvc_limit s ≤ 10000
unfolding lvc_limit
limit-le s = ground arith

counted : (l : Loop) (n : ℕ) → IsSagging l → n ≤ lvc_limit l.shared → services n l ≡ with_count l n
unfolding services
counted l zero h under = λ i. with_count l (h.fresh i)
counted l (suc n) h under =
    let small = limit-le l.shared in
    ap voltage_stage (counted l n h (omega arith)) ∙ not_yet l n h under (omega arith)

cut :
    (l : Loop) (n : ℕ)
    → IsSagging l
    → n ≡ lvc_limit l.shared
    → ((voltage_stage (with_count l n)).shared
        ≡ transition_shared (request_action l.shared IsrAction.all_off) MotorEvent.disarm)
      × ((voltage_stage (with_count l n)).main.protection.low_voltage_cutoff ≡ true)
unfolding voltage_stage
cut l n h e =
    let small = limit-le l.shared in
    rw (h.enabled, one_more l n h (omega arith), lt→ltb (lvc_limit l.shared) (suc n) (omega arith))
      (refl, refl)

pub disarm_any : (m : MotorMode) → transition m MotorEvent.disarm ≡ disarmed
unfolding transition
disarm_any disarmed = refl
disarm_any armed = refl
disarm_any stepper_sine = refl
disarm_any old_routine = refl
disarm_any running = refl

-- Low readings from a count of zero change nothing in the shared state and latch no cutoff up to the
-- limit (10 000 services, 100 in sine drive); the next one latches it, disarms the motor, whatever its
-- mode, and requests the kill.
pub voltage_stage_cutoff :
    (l : Loop) (n : ℕ)
    → IsSagging l
    → n ≤ lvc_limit l.shared
    → ((services n l).shared ≡ l.shared)
      × ((services n l).main.protection.low_voltage_cutoff ≡ false)
      × ((services (suc (lvc_limit l.shared)) l).shared.motor_mode ≡ disarmed)
      × ((services (suc (lvc_limit l.shared)) l).shared.isr_action_cell
          ≡ request_isr_action l.shared.isr_action_cell IsrAction.all_off)
      × ((services (suc (lvc_limit l.shared)) l).main.protection.low_voltage_cutoff ≡ true)
unfolding services transition_shared request_action transition
voltage_stage_cutoff l n h under =
    let limit = lvc_limit l.shared in
    let kept = counted l n h under in
    let last = ap voltage_stage (counted l limit h (omega arith)) in
    let (shared, latched) = cut l limit h refl in
    (
      ap Loop.shared kept,
      ap (λ x. x.main.protection.low_voltage_cutoff) kept ∙ h.unlatched,
      ap (λ x. x.shared.motor_mode) last
          ∙ ap SharedState.motor_mode shared
          ∙ disarm_any l.shared.motor_mode,
      ap (λ x. x.shared.isr_action_cell) last ∙ ap SharedState.isr_action_cell shared,
      ap (λ x. x.main.protection.low_voltage_cutoff) last ∙ latched,
    )

wrapped :
    (l : Loop)
    → is_below_cutoff l.main ≡ true
    → l.main.protection.low_voltage_count ≡ 65535
    → low_count l.main ≡ 0
unfolding low_count
wrapped l below full = rw (below, full) refl

-- A latched cutoff whose count of low readings stands at 65535 loses its effect with the next low
-- reading: the count wraps to zero, and the service changes nothing in the shared state, so that the
-- motor is neither disarmed nor killed although the cutoff is latched and the voltage is low.
pub voltage_stage_wraps :
    (l : Loop)
    → (field l.main.config At.low_voltage_cut_off != 0) ≡ true
    → is_below_cutoff l.main ≡ true
    → l.main.protection.low_voltage_count ≡ 65535
    → l.main.protection.low_voltage_cutoff ≡ true
    → ((voltage_stage l).shared ≡ l.shared)
      × ((voltage_stage l).main.protection.low_voltage_count ≡ 0)
      × ((voltage_stage l).main.protection.low_voltage_cutoff ≡ true)
unfolding voltage_stage
voltage_stage_wraps l enabled below full latched =
    rw (enabled, wrapped l below full, le→ltb (lvc_limit l.shared) 0 (omega arith))
      (refl, refl, latched)
