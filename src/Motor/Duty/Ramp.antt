-- ===== src/Motor/Duty/Ramp.antt =====
-- The ramp limiter and the ceilings of `DutyState` in rm32/src/control/state.rs.
use rm.Prelude.{ℕ, ◌+◌, ◌/◌, ◌≤◌, ◌<◌, ◌≡◌, arith, Bool, true, false, ltb, if◌then◌else◌, min, max}
use rm.Prelude.Int.{pos, as_u8}
use rm.Arith.Map.{map}
use rm.Arith.Map.Bisect.{bisect, map-bisect, bisect_bounds}
use rm.Platform.{Platform}
use rm.Constants.{ramp_fast_commutation_threshold, ramp_low_rpm_interval}
use rm.Motor.Duty.{DutyState, change_for, limit_step, ramp_limit, clamp_ceilings, apply_max_ramp}

-- The limited step stays between the last duty and the wanted one, at most `change` from the last.
limit_step_bounds :
    (last change cycle : ℕ)
    → last < 32768
    → cycle < 32768
    → change < 256
    → (limit_step last change cycle ≤ last + change)
      × (last ≤ limit_step last change cycle + change)
      × (min last cycle ≤ limit_step last change cycle)
      × (limit_step last change cycle ≤ max last cycle)
      × (cycle ≤ last + change → last ≤ cycle + change → limit_step last change cycle ≡ cycle)
unfolding limit_step
limit_step_bounds last change cycle hl hc hh = ground arith

-- One tick of the ramp limiter on duties below 32768 and a change that is a u8: between two ramp
-- steps the duty stays where it was; at a ramp step it moves towards the wanted duty, never past it
-- and by at most the change for the profile, and reaches it if it is that near. The counter starts
-- again exactly at a ramp step.
pub ramp_limit_slew :
    (p : Platform) (d : DutyState) (volt ci zc avg : ℕ) (vb : Bool)
    → d.last < 32768
    → d.cycle < 32768
    → change_for p d volt ci zc avg vb < 256
    → let e = ramp_limit p d volt ci zc avg vb in
      let change = change_for p d volt ci zc avg vb in
      (d.ramp_count ≤ d.ramp_divider
        → (e.cycle ≡ d.last) × (e.ramp_count ≡ d.ramp_count) × (e.max_change ≡ d.max_change))
      × (d.ramp_divider < d.ramp_count
          → (e.cycle ≤ d.last + change)
            × (d.last ≤ e.cycle + change)
            × (min d.last d.cycle ≤ e.cycle)
            × (e.cycle ≤ max d.last d.cycle)
            × (d.cycle ≤ d.last + change → d.last ≤ d.cycle + change → e.cycle ≡ d.cycle)
            × (e.ramp_count ≡ 0)
            × (e.max_change ≡ change))
      × (e.last ≡ d.last)
unfolding ramp_limit
ramp_limit_slew p d volt ci zc avg vb hl hc hh = (
  λ h. ground arith,
  λ h. ground (arith, limit_step_bounds d.last (change_for p d volt ci zc avg vb) d.cycle hl hc hh),
  ground arith,
)

voltage_change :
    (volt : ℕ)
    → (r : ℕ) × (map (pos volt) (pos 800) (pos 2200) (pos 10) (pos 1) ≡ pos r) × (1 ≤ r) × (r ≤ 10)
voltage_change volt = (
  bisect 33 volt 800 2200 10 1,
  map-bisect volt 800 2200 10 1 (omega arith) (omega arith) (omega arith) (omega arith),
  omega (arith, bisect_bounds 33 volt 800 2200 10 1),
  omega (arith, bisect_bounds 33 volt 800 2200 10 1),
)

as_u8-pos : (n : ℕ) → n < 256 → as_u8 (pos n) ≡ n
unfolding as_u8
as_u8-pos n h = omega arith

-- With voltage-based ramping the change per step lies between 1 and 10, and at short commutation
-- intervals it is at most three times as large. Without it, the change is the startup profile's
-- until 150 zero crosses and a duty of 150 are reached, and then that of the low or the high speed.
pub change_for_profile :
    (p : Platform) (d : DutyState) (volt ci zc avg : ℕ)
    → let slow = change_for p d volt ci zc avg true in
      let plain = change_for p d volt ci zc avg false in
      (1 ≤ slow)
      × (slow ≤ 30)
      × (ramp_fast_commutation_threshold p < ci → slow ≤ 10)
      × (zc < 150 → plain ≡ d.max_ramp_startup)
      × (d.last < 150 → plain ≡ d.max_ramp_startup)
      × (150 ≤ zc
          → 150 ≤ d.last
          → plain ≡ (
              if ltb (ramp_low_rpm_interval p) avg
              then d.max_ramp_low_rpm
              else d.max_ramp_high_rpm))
unfolding change_for
change_for_profile p d volt ci zc avg =
    let (r, e, l, h) = voltage_change volt in
    rw (e, as_u8-pos r (omega arith))
      (
        ground arith,
        ground arith,
        λ f. ground arith,
        λ f. ground arith,
        λ f. ground arith,
        λ f g. ground arith,
      )

-- The ceilings hold whatever the ramp and the stall boost ask for: the duty ends at or below the
-- duty maximum, which is stored, and the current limit, and a duty that already is within both,
-- boost included, is only raised by the boost.
pub clamp_ceilings_bounds :
    (d : DutyState) (boost duty_maximum current_limit : ℕ)
    → let e = clamp_ceilings d boost duty_maximum current_limit in
      (e.cycle ≤ duty_maximum)
      × (e.cycle ≤ current_limit)
      × (e.maximum ≡ duty_maximum)
      × (d.cycle + boost ≤ duty_maximum
          → d.cycle + boost ≤ current_limit
          → duty_maximum < 65536
          → e.cycle ≡ d.cycle + boost)
unfolding clamp_ceilings
clamp_ceilings_bounds d boost dm cl = ground arith

-- A configured ramp below ten becomes the change of all three profiles with a divider of nine; one
-- of ten or more sets the divider to zero and caps each profile at a tenth of it, raising none.
pub apply_max_ramp_profiles :
    (d : DutyState) (max_ramp : ℕ)
    → let e = apply_max_ramp d max_ramp in
      (max_ramp < 10
        → (e.ramp_divider ≡ 9)
          × (e.max_ramp_startup ≡ max_ramp)
          × (e.max_ramp_low_rpm ≡ max_ramp)
          × (e.max_ramp_high_rpm ≡ max_ramp))
      × (10 ≤ max_ramp
          → (e.ramp_divider ≡ 0)
            × (e.max_ramp_startup ≤ d.max_ramp_startup)
            × (e.max_ramp_startup ≤ max_ramp / 10)
            × (e.max_ramp_low_rpm ≤ d.max_ramp_low_rpm)
            × (e.max_ramp_low_rpm ≤ max_ramp / 10)
            × (e.max_ramp_high_rpm ≤ d.max_ramp_high_rpm)
            × (e.max_ramp_high_rpm ≤ max_ramp / 10))
unfolding apply_max_ramp
apply_max_ramp_profiles d max_ramp = (λ h. ground arith, λ h. ground arith)
