-- ===== src/Motor/Pids/Bounds.antt =====
-- The control outputs of `PidState` in rm32/src/control/state.rs are in range, whatever the inputs.
use rm.Prelude.{
  ℕ, ◌+◌, ◌/◌, ◌≤◌, ◌<◌, le→ltb, lt→ltb, ◌≡◌, refl, arith, Bool, true, false, not, ◌&&◌, ◌||◌, none,
  some, ltb, if◌then◌else◌,
}
use rm.Prelude.Int.{ℤ, pos, negsuc, ◌+ℤ◌, ◌-ℤ◌, quot, i16, i32, as_u16, signed32}
use rm.Motor.Pid
use rm.Motor.Pids.{PidState, clamp_ℤ, tick_stall, tick_current_limit, tick_speed_control}

clamped :
    (lo hi : ℕ) (v : ℤ)
    → lo ≤ hi
    → (r : ℕ) × (clamp_ℤ (pos lo) (pos hi) v ≡ pos r) × (lo ≤ r) × (r ≤ hi)
unfolding clamp_ℤ
clamped lo hi (pos n) h =
    (if ltb n lo then lo else if ltb hi n then hi else n, ground arith, ground arith, ground arith)
clamped lo hi (negsuc n) h = (lo, ground arith, ground arith, ground arith)

as_u16-pos : (n : ℕ) → n < 65536 → as_u16 (pos n) ≡ n
unfolding as_u16
as_u16-pos n h = omega arith

both_on : (a b : Bool) → a && b ≡ true → not a || not b ≡ false
both_on a b e = ground arith

-- The boost of the stall protection is at most 150, and its accumulator stays in 0 .. 1500000.
pub tick_stall_bounds :
    (s : PidState) (ci : ℤ)
    → (r : ℕ) × ((tick_stall s ci).0.stall_adjust ≡ pos r)
      × (r ≤ 1500000)
      × ((tick_stall s ci).1 ≡ r / 10000)
      × ((tick_stall s ci).1 ≤ 150)
unfolding tick_stall
tick_stall_bounds s ci =
    let (r, e, l, h) =
      clamped 0 1500000
        (i32 (s.stall_adjust +ℤ (Pid.calculate s.stall ci (pos s.stall_protect_target_interval)).1))
        (omega arith) in
    (
      r,
      e,
      h,
      rw e (as_u16-pos (r / 10000) (omega arith)),
      rw e (omega (arith, as_u16-pos (r / 10000) (omega arith))),
    )

-- With current limiting on and the motor running, the duty ceiling lies between the minimum duty
-- and 2000; otherwise it is 2000 and the accumulator is reset to it. The tick panics exactly when a
-- minimum duty above 2000 meets an active limiter.
pub tick_current_limit_bounds :
    (s : PidState) (actual target : ℤ) (min_duty : ℕ) (running : Bool)
    → (s.use_current_limit && running ≡ false
        → tick_current_limit s actual target (pos min_duty) running
          ≡ some (record s { current_limit_adjust = pos 2000 }, 2000))
      × (s.use_current_limit && running ≡ true
          → min_duty ≤ 2000
          → (t : PidState) × (r : ℕ) × (tick_current_limit s actual target (pos min_duty) running
              ≡ some (t, r))
            × (t.current_limit_adjust ≡ pos r)
            × (min_duty ≤ r)
            × (r ≤ 2000))
      × (s.use_current_limit && running ≡ true
          → 2000 < min_duty
          → tick_current_limit s actual target (pos min_duty) running ≡ none)
unfolding tick_current_limit
tick_current_limit_bounds s actual target min_duty running = (
  λ e. rw e,
  λ e h.
      let out = Pid.calculate s.current actual target in
      let (r, c, l, m) =
        clamped min_duty 2000 (i16 (s.current_limit_adjust -ℤ i16 (quot out.1 10000))) h in
      (
        record s { current = out.0; current_limit_adjust = pos r },
        r,
        rw (e, le→ltb (2000 + 0) (min_duty + 0) (omega arith), c, as_u16-pos r (omega arith)),
        refl,
        l,
        m,
      ),
  λ e h. rw (e, lt→ltb (2000 + 0) (min_duty + 0) (omega arith)),
)

-- Closed-loop speed control overrides the throttle only when it is switched on and the motor runs;
-- the override is a throttle of at most 2047, and before 100 zero crosses no integral is kept.
pub tick_speed_control_bounds :
    (s : PidState) (e_com : ℤ) (zc : ℕ) (running : Bool)
    → (s.use_speed_control && running ≡ false → tick_speed_control s e_com zc running ≡ (s, none))
      × (s.use_speed_control && running ≡ true
          → (r : ℕ) × ((tick_speed_control s e_com zc running).0.input_override ≡ pos r)
            × ((tick_speed_control s e_com zc running).1 ≡ some (r / 10000))
            × (r / 10000 ≤ 2047)
            × (zc < 100 → (tick_speed_control s e_com zc running).0.speed.integral ≡ pos 0))
unfolding tick_speed_control
tick_speed_control_bounds s e_com zc running = (
  λ e. ground arith,
  λ e.
      let out = Pid.calculate s.speed e_com (signed32 s.target_e_com_time) in
      let (r, c, l, m) = clamped 0 20470000 (i32 (s.input_override +ℤ out.1)) (omega arith) in
      (
        r,
        rw (both_on _ _ e, c),
        rw (both_on _ _ e, c, as_u16-pos (r / 10000) (omega arith)),
        omega arith,
        λ h. rw (both_on _ _ e, lt→ltb zc 100 h) (unfold Pid.clear_integral in refl),
      ),
)
