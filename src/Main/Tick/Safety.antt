-- ===== src/Main/Tick/Safety.antt =====
-- The main loop as a whole: it only ever calms the motor, and a lost signal disarms it.
use rm.Prelude.{◌<◌, ◌≤◌, not, ◌&&◌, ◌≡◌, refl, sym, ap, ◌∙◌, Bool, true, false, some, arith}
use mathlib.Core.Path.{subst}
use rm.Platform.{Platform}
use rm.Constants.{signal_timeout_disarm}
use rm.Measure.Filter.{FixedPoint}
use rm.Motor.Mode.{disarmed, is_armed, is_running, as_u8}
use rm.Main.State.{Loop, AdcReads}
use rm.Main.Protection.{snapshot}
use rm.Main.Tick.{protect, main_tick}
use rm.Main.Tick.Lost.{protect_lost}
use rm.Main.Tick.Total.{main_tick_total}
use rm.Main.Tick.Modes.{
  mode_of, Calmer, trans-Calmer, Holds, holds_map, service_stage-Calmer, report_same,
  protect-Calmer,
}

main_tick-Calmer :
    (p : Platform) (fixed : FixedPoint) (a : AdcReads) (l : Loop)
    → Holds (λ x. Calmer (mode_of l) (mode_of x)) (main_tick p fixed a l)
unfolding main_tick
main_tick-Calmer p fixed a l =
    let h = snapshot l.shared in
    let q = protect p h l in
    report_same p h (mode_of l) _ (
      holds_map (λ x. Calmer (mode_of q) (mode_of x)) (λ x. Calmer (mode_of l) (mode_of x)) _
        (λ x after. trans-Calmer (mode_of l) (mode_of q) (mode_of x) (protect-Calmer p h l) after)
        (service_stage-Calmer p fixed a h q))

never_gains : (before after : Bool) → (after ≡ true → before ≡ true) → (after && not before) ≡ false
never_gains true after h = ground arith
never_gains false after h = ground arith

-- With a minimum duty within the duty scale, a tick of the main loop never panics, and it never arms
-- the motor and never starts it: a motor armed or running after the tick was so before, whatever the
-- sensors, the faults and the rest of the configuration are.
pub main_tick_calms :
    (p : Platform) (fixed : FixedPoint) (a : AdcReads) (l : Loop)
    → l.main.minimum_duty ≤ 2000
    → (after : Loop) × (main_tick p fixed a l ≡ some after)
      × ((is_armed after.shared.motor_mode && not (is_armed l.shared.motor_mode)) ≡ false)
      × ((is_running after.shared.motor_mode && not (is_running l.shared.motor_mode)) ≡ false)
unfolding Holds
main_tick_calms p fixed a l small =
    let (after, done) = main_tick_total p fixed a l small in
    let (arms, runs) =
      subst (Holds (λ x. Calmer (mode_of l) (mode_of x))) done (main_tick-Calmer p fixed a l) in
    (
      after,
      done,
      never_gains (is_armed l.shared.motor_mode) (is_armed after.shared.motor_mode) arms,
      never_gains (is_running l.shared.motor_mode) (is_running after.shared.motor_mode) runs,
    )

not_armed : (b : Bool) → (b ≡ true → is_armed disarmed ≡ true) → b ≡ false
unfolding is_armed as_u8
not_armed true h = sym (h refl)
not_armed false h = refl

lost_tick :
    (p : Platform) (fixed : FixedPoint) (a : AdcReads) (l : Loop)
    → is_armed l.shared.motor_mode ≡ true
    → signal_timeout_disarm p < l.shared.signal_timeout
    → Holds (λ x. is_armed (mode_of x) ≡ false) (main_tick p fixed a l)
unfolding main_tick
lost_tick p fixed a l still over =
    let h = snapshot l.shared in
    let q = protect p h l in
    let off = protect_lost p h l still over in
    holds_map (λ x. Calmer (mode_of q) (mode_of x)) (λ x. is_armed (mode_of x) ≡ false) _
      (λ x calm. not_armed (is_armed (mode_of x)) (λ up. ap is_armed (sym off) ∙ calm.0 up))
      (report_same p h (mode_of q) _ (service_stage-Calmer p fixed a h q))

-- An armed motor without a signal for longer than the disarm timeout is disarmed by the next tick of
-- the main loop, whatever the other protections do in the same tick, with a minimum duty within the
-- duty scale.
pub main_tick_lost_signal :
    (p : Platform) (fixed : FixedPoint) (a : AdcReads) (l : Loop)
    → is_armed l.shared.motor_mode ≡ true
    → signal_timeout_disarm p < l.shared.signal_timeout
    → l.main.minimum_duty ≤ 2000
    → (after : Loop) × (main_tick p fixed a l ≡ some after)
      × (is_armed after.shared.motor_mode ≡ false)
unfolding Holds
main_tick_lost_signal p fixed a l still over small =
    let (after, done) = main_tick_total p fixed a l small in
    (
      after,
      done,
      subst (Holds (λ x. is_armed (mode_of x) ≡ false)) done (lost_tick p fixed a l still over),
    )
