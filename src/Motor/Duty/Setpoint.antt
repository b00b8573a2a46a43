-- ===== src/Motor/Duty/Setpoint.antt =====
-- The throttle mapping of `DutyState::compute_setpoint` in rm32/src/control/state.rs.
use rm.Prelude.{ℕ, ◌≤◌, ◌<◌, ◌≡◌, arith, Bool, true, false, none, some, ltb, if◌then◌else◌}
use rm.Prelude.Int.{pos, as_u16}
use rm.Arith.Map.Bisect.{bisect, map-bisect, bisect_bounds, bisect_ends, bisect_mono}
use rm.Motor.Duty.{DutyState, clamp, input_min, duty_min, mapped_duty, in_startup, compute_setpoint}

as_u16-pos : (n : ℕ) → n < 65536 → as_u16 (pos n) ≡ n
unfolding as_u16
as_u16-pos n h = omega arith

-- The mapped duty as a bisection.
mapped :
    (d : DutyState) (input : ℕ) (sine : Bool)
    → d.minimum ≤ 2000
    → mapped_duty d input sine ≡ bisect 33 input (input_min sine) 2047 (duty_min d sine) 2000
unfolding mapped_duty
mapped d input true h =
    rw
      (map-bisect input 137 2047 (duty_min d true) 2000 (omega arith) (omega arith) (ground arith)
        (omega arith))
      (as_u16-pos _ (ground (arith, bisect_bounds 33 input 137 2047 (duty_min d true) 2000)))
mapped d input false h =
    rw
      (map-bisect input 47 2047 d.minimum 2000 (omega arith) (omega arith) (omega arith)
        (omega arith))
      (as_u16-pos _ (ground (arith, bisect_bounds 33 input 47 2047 d.minimum 2000)))

duty_min-le :
    (d : DutyState) (sine : Bool)
    → d.minimum ≤ 2000
    → (d.minimum ≤ duty_min d sine) × (duty_min d sine ≤ 2000)
duty_min-le d true h = ground arith
duty_min-le d false h = ground arith

-- Once the motor has left the startup phase, the setpoint of a configuration whose minimum duty is
-- at most 2000 lies between the minimum duty and 2000; it is the minimum duty, raised for a sine
-- start, for a throttle up to the lower end and 2000 from 2047 on; and more throttle never gives
-- less duty.
pub compute_setpoint_running :
    (d : DutyState) (x y zc stall : ℕ) (sine : Bool)
    → d.minimum ≤ 2000
    → in_startup zc stall ≡ false
    → x ≤ y
    → (r s : ℕ) × (compute_setpoint d x zc stall sine ≡ some r)
      × (compute_setpoint d y zc stall sine ≡ some s)
      × (r ≤ s)
      × (duty_min d sine ≤ r)
      × (s ≤ 2000)
      × (x ≤ input_min sine → r ≡ duty_min d sine)
      × (2047 ≤ y → s ≡ 2000)
unfolding compute_setpoint
compute_setpoint_running d x y zc stall sine h out xy = (
  value x,
  value y,
  rw (out, mapped d x sine h),
  rw (out, mapped d y sine h),
  bisect_mono 33 x y (input_min sine) 2047 (duty_min d sine) 2000 xy (duty_min-le d sine h).1,
  omega (
    arith,
    bisect_bounds 33 x (input_min sine) 2047 (duty_min d sine) 2000,
    (duty_min-le d sine h).1,
  ),
  omega (
    arith,
    bisect_bounds 33 y (input_min sine) 2047 (duty_min d sine) 2000,
    (duty_min-le d sine h).1,
  ),
  λ low. (bisect_ends 32 x (input_min sine) 2047 (duty_min d sine) 2000).1 low (ground arith),
  (bisect_ends 32 y (input_min sine) 2047 (duty_min d sine) 2000).0,
)
  where
    value : ℕ → ℕ
    value z = bisect 33 z (input_min sine) 2047 (duty_min d sine) 2000

-- In the startup phase the setpoint is confined to the startup range, and it is the mapped duty
-- where that lies in the range; a range whose ends are reversed makes the computation panic.
pub compute_setpoint_startup :
    (d : DutyState) (input zc stall : ℕ) (sine : Bool)
    → in_startup zc stall ≡ true
    → (d.min_startup ≤ d.startup_max
        → (r : ℕ) × (compute_setpoint d input zc stall sine ≡ some r)
          × (d.min_startup ≤ r)
          × (r ≤ d.startup_max)
          × (d.min_startup ≤ mapped_duty d input sine
              → mapped_duty d input sine ≤ d.startup_max
              → r ≡ mapped_duty d input sine))
      × (d.startup_max < d.min_startup → compute_setpoint d input zc stall sine ≡ none)
unfolding compute_setpoint clamp
compute_setpoint_startup d input zc stall sine within = (
  λ h. (confined, rw within (ground arith), ground arith, ground arith, ground arith),
  λ h. rw within (ground arith),
)
  where
    confined : ℕ
    confined =
        if ltb (mapped_duty d input sine) d.min_startup
        then d.min_startup
        else if ltb d.startup_max (mapped_duty d input sine)
        then d.startup_max
        else mapped_duty d input sine
