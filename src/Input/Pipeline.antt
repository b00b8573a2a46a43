-- ===== src/Input/Pipeline.antt =====
-- `process_input` of rm32/src/control/input.rs as a whole: what it publishes, the stuck-rotor latch
-- and the brake-and-reverse handshake over several passes.
use rm.Prelude.{
  ℕ, ◌+◌, ◌-◌, ◌*◌, ◌≤◌, ◌<◌, ◌≡◌, ◌≢◌, arith, none, Bool, true, false, not, ◌!=◌, if◌then◌else◌,
  refl, ap, ◌∙◌,
}
use rm.Motor.Mode.{is_stepper_sine}
use rm.Config.{Config, field}
use rm.Config.At
use rm.Input.{
  Shared, ProtectionState, InputState, process_input, map_direction, is_stuck, brake_on_stop,
  shaped, apply_gated, apply_rc_shared, apply_rc_car_result, in_center,
}
use rm.Input.Mapping.{InputMode, ReverseMode, result, dshot_rc_car, is_rc_car, BidirResult}
use rm.Input.Ranges.{speed_gate, rc_car-IsHandshake, servo_bidir_range, sine_start_map_mono}

gated_range : (s : Shared) (r : BidirResult) → (apply_gated s r).adjusted_input ≡ r.adjusted
unfolding apply_gated
gated_range s r = ground arith

rc_range : (s : Shared) (r : BidirResult) → (apply_rc_shared s r).adjusted_input ≡ r.adjusted
unfolding apply_rc_shared
rc_range s r = ground arith

-- The throttle that the direction stage publishes is in range.
mapped_range :
    (s : Shared) (c : Config) (i : InputState) (m : InputMode)
    → s.newinput ≤ 2047
    → ((map_direction s c i m).0).adjusted_input ≤ 2047
unfolding map_direction
mapped_range s c i InputMode.unidirectional h = h
mapped_range s c i (InputMode.bidir_dshot ReverseMode.speed_gated) h = rw (gated_range) (
    (speed_gate s.newinput s.forward (field c At.dir_reversed != 0) s.commutation_interval
      s.duty_cycle (is_stepper_sine s.motor_mode) i.reverse_speed_threshold 0 h
      (omega arith)).0.in_range)
mapped_range s c i (InputMode.bidir_dshot ReverseMode.rc_car) h = rw (rc_range) (
    (rc_car-IsHandshake s.newinput s.forward (field c At.dir_reversed != 0) i.prop_brake_active
      i.return_to_center 0 h).0.in_range)
mapped_range s c i (InputMode.bidir_servo ReverseMode.speed_gated dead_band) h = rw (gated_range) (
    servo_bidir_range s.newinput s.forward (field c At.dir_reversed != 0) s.commutation_interval
      s.duty_cycle (is_stepper_sine s.motor_mode) i.reverse_speed_threshold dead_band)
mapped_range s c i (InputMode.bidir_servo ReverseMode.rc_car dead_band) h = rw (rc_range) (
    (rc_car-IsHandshake s.newinput s.forward (field c At.dir_reversed != 0) i.prop_brake_active
      i.return_to_center dead_band h).1.in_range)

shaped_range :
    (c : Config) (v : ℕ)
    → v ≤ 2047
    → field c At.sine_mode_changeover_throttle_level ≤ 255
    → shaped c v ≤ 2047
unfolding shaped
shaped_range c v h l =
    ground (arith, sine_start_map_mono v v (field c At.sine_mode_changeover_throttle_level))

-- In every mode, with any dead band and a changeover level of a byte, an input of at most 2047
-- gives a throttle of at most 2047.
pub process_input_range :
    (s : Shared) (c : Config) (p : ProtectionState) (i : InputState)
    → s.newinput ≤ 2047
    → field c At.sine_mode_changeover_throttle_level ≤ 255
    → (process_input s c p i).0.adjusted_input ≤ 2047
unfolding process_input
process_input_range s c p i h l = ground (
  arith,
  shaped_range c (map_direction s c i i.mode).0.adjusted_input (mapped_range s c i i.mode h) l,
)

-- Every path of `process_input` publishes its result: the throttle and the brake in the shared
-- state are those of the input state. With a rotor that is stuck and the protection on, the
-- throttle is zero, the brake is off, all outputs are ordered off and the fault counter is 102;
-- otherwise the protection is unchanged.
pub process_input_publishes :
    (s : Shared) (c : Config) (p : ProtectionState) (i : InputState)
    → let r = process_input s c p i in
      (r.0.adjusted_input ≡ r.2.input)
      × (r.0.prop_brake ≡ r.2.prop_brake_active)
      × (is_stuck p c ≡ true
          → (r.2.input ≡ 0)
            × (r.2.prop_brake_active ≡ false)
            × (r.0.all_off ≡ true)
            × (r.1.bemf_timeout_happened ≡ 102))
      × (is_stuck p c ≡ false → r.1 ≡ p)
unfolding process_input
process_input_publishes s c p i = ground arith

-- The latch holds: after a pass that found the rotor stuck, with a threshold below 102, the next
-- pass with the protection on latches again, whatever the input and the configuration: no
-- throttle, all outputs ordered off, the fault counter at 102.
pub latch_holds :
    (s t : Shared) (c d : Config) (p : ProtectionState) (i j : InputState)
    → is_stuck p c ≡ true
    → p.bemf_timeout < 102
    → field d At.stuck_rotor_protection ≢ 0
    → let q = (process_input s c p i).1 in
      let r = process_input t d q j in
      (r.0.adjusted_input ≡ 0) × (r.0.all_off ≡ true) × (r.1.bemf_timeout_happened ≡ 102)
unfolding process_input is_stuck
latch_holds s t c d p i j h l e = ground arith

-- One pass with a new raw input; the other cells keep what the pass before left.
abbrev pub pass :
    Config → Shared × ProtectionState × InputState → ℕ → Shared × ProtectionState × InputState
pass c (s, p, i) newinput = process_input (record s { newinput = newinput }) c p i

-- A pass in RC-car mode without sine start and with no rotor stuck.
rc_pass :
    (s : Shared) (c : Config) (p : ProtectionState) (i : InputState) (n : ℕ)
    → i.mode ≡ InputMode.bidir_dshot ReverseMode.rc_car
    → field c At.use_sine_start ≡ 0
    → is_stuck p c ≡ false
    → let r =
        dshot_rc_car n s.forward
          (field c At.dir_reversed != 0)
          i.prop_brake_active
          i.return_to_center in
      let j = apply_rc_car_result i r n none in
      pass c (s, p, i) n ≡ (
        record s {
          newinput = n;
          adjusted_input = r.adjusted;
          forward = (if r.reverse then not s.forward else s.forward);
          prop_brake = j.prop_brake_active;
        },
        p,
        record j { input = r.adjusted },
      )
unfolding process_input map_direction apply_rc_shared apply_rc_car_result brake_on_stop is_rc_car
    shaped
rc_pass s c p i n m u k = rw (m, u, k) (ground arith)

abbrev braked : Shared → InputState → ℕ → Shared × InputState
braked s i n = (
  record s { newinput = n; adjusted_input = 0; prop_brake = true },
  record i { prop_brake_active = true; return_to_center = false; input = 0 },
)

abbrev released : Shared → InputState → ℕ → Shared × InputState
released s i n = (
  record s { newinput = n; adjusted_input = 0; prop_brake = false },
  record i { prop_brake_active = false; return_to_center = true; input = 0 },
)

-- The opposite half of the range before the handshake.
brakes :
    (n : ℕ) (forward dir_reversed : Bool) (i : InputState)
    → forward ≡ dir_reversed
    → i.return_to_center ≡ false
    → 1047 < n
    → let r = dshot_rc_car n forward dir_reversed i.prop_brake_active i.return_to_center in
      (r ≡ result 0 false true)
      × (apply_rc_car_result i r n none
          ≡ record i { prop_brake_active = true; return_to_center = false })
unfolding dshot_rc_car apply_rc_car_result in_center
brakes n true true i e c h = ground arith
brakes n true false i e c h = ground arith
brakes n false true i e c h = ground arith
brakes n false false i e c h = ground arith

-- The centre with the brake held.
centres :
    (n : ℕ) (forward dir_reversed : Bool) (i : InputState)
    → i.prop_brake_active ≡ true
    → n ≤ 47
    → let r = dshot_rc_car n forward dir_reversed i.prop_brake_active i.return_to_center in
      (r ≡ result 0 false false)
      × (apply_rc_car_result i r n none
          ≡ record i { prop_brake_active = false; return_to_center = true })
unfolding dshot_rc_car apply_rc_car_result in_center
centres n forward dir_reversed i b h = ground arith

-- The opposite half of the range after the handshake.
reverses :
    (n : ℕ) (forward dir_reversed : Bool) (i : InputState)
    → forward ≡ dir_reversed
    → i.prop_brake_active ≡ false
    → i.return_to_center ≡ true
    → 1047 < n
    → n ≤ 2047
    → let r = dshot_rc_car n forward dir_reversed i.prop_brake_active i.return_to_center in
      (r ≡ result ((n - 1048) * 2 + 46) true false)
      × (apply_rc_car_result i r n none
          ≡ record i { prop_brake_active = false; return_to_center = false })
unfolding dshot_rc_car apply_rc_car_result in_center
reverses n true true i e b c h l = ground arith
reverses n true false i e b c h l = ground arith
reverses n false true i e b c h l = ground arith
reverses n false false i e b c h l = ground arith

first_pass :
    (s : Shared) (c : Config) (p : ProtectionState) (i : InputState) (n : ℕ)
    → i.mode ≡ InputMode.bidir_dshot ReverseMode.rc_car
    → field c At.use_sine_start ≡ 0
    → is_stuck p c ≡ false
    → s.forward ≡ (field c At.dir_reversed != 0)
    → i.return_to_center ≡ false
    → 1047 < n
    → pass c (s, p, i) n ≡ ((braked s i n).0, p, (braked s i n).1)
first_pass s c p i n m u k f r h =
    let one = brakes n s.forward (field c At.dir_reversed != 0) i f r h in
    rc_pass s c p i n m u k ∙ rw (one.1, one.0) refl

second_pass :
    (s : Shared) (c : Config) (p : ProtectionState) (i : InputState) (n : ℕ)
    → i.mode ≡ InputMode.bidir_dshot ReverseMode.rc_car
    → field c At.use_sine_start ≡ 0
    → is_stuck p c ≡ false
    → i.prop_brake_active ≡ true
    → n ≤ 47
    → pass c (s, p, i) n ≡ ((released s i n).0, p, (released s i n).1)
second_pass s c p i n m u k b h =
    let two = centres n s.forward (field c At.dir_reversed != 0) i b h in
    rc_pass s c p i n m u k ∙ rw (two.1, two.0) refl

third_pass :
    (s : Shared) (c : Config) (p : ProtectionState) (i : InputState) (n : ℕ)
    → i.mode ≡ InputMode.bidir_dshot ReverseMode.rc_car
    → field c At.use_sine_start ≡ 0
    → is_stuck p c ≡ false
    → s.forward ≡ (field c At.dir_reversed != 0)
    → i.prop_brake_active ≡ false
    → i.return_to_center ≡ true
    → 1047 < n
    → n ≤ 2047
    → let t = (pass c (s, p, i) n).0 in
      (t.adjusted_input ≡ (n - 1048) * 2 + 46)
      × (t.prop_brake ≡ false)
      × (t.forward ≡ not s.forward)
third_pass s c p i n m u k f b r h l =
    let three = reverses n s.forward (field c At.dir_reversed != 0) i f b r h l in
    rw (rc_pass s c p i n m u k) (rw (three.1, three.0) (refl, refl, refl))

-- The brake-and-reverse handshake of a DShot input in RC-car mode, without sine start, with no
-- rotor stuck and no return to the centre seen yet: while the motor turns the other way, a stick
-- in the upper half brakes and keeps the direction, then a stick at rest releases the brake, and
-- then a stick in the upper half, up to 2047, reverses the direction with its throttle.
pub reversal_handshake :
    (s : Shared) (c : Config) (p : ProtectionState) (i : InputState) (a b d : ℕ)
    → i.mode ≡ InputMode.bidir_dshot ReverseMode.rc_car
    → i.return_to_center ≡ false
    → s.forward ≡ (field c At.dir_reversed != 0)
    → field c At.use_sine_start ≡ 0
    → is_stuck p c ≡ false
    → 1047 < a
    → b ≤ 47
    → 1047 < d
    → d ≤ 2047
    → let first = pass c (s, p, i) a in
      let second = pass c first b in
      let third = pass c second d in
      ((first.0.adjusted_input ≡ 0) × (first.0.prop_brake ≡ true) × (first.0.forward ≡ s.forward))
      × ((second.0.adjusted_input ≡ 0)
          × (second.0.prop_brake ≡ false)
          × (second.0.forward ≡ s.forward))
      × ((third.0.adjusted_input ≡ (d - 1048) * 2 + 46)
          × (third.0.prop_brake ≡ false)
          × (third.0.forward ≡ not s.forward))
reversal_handshake s c p i a b d m r f u k ha hb hd he =
    let one = first_pass s c p i a m u k f r ha in
    let i1 = (braked s i a).1 in
    let s1 = (braked s i a).0 in
    let two = ap (λ x. pass c x b) one ∙ second_pass s1 c p i1 b m u k refl hb in
    let three = ap (λ x. pass c x d) two in
    let t = third_pass (released s1 i1 b).0 c p (released s1 i1 b).1 d m u k f refl refl hd he in
    (rw (one) (refl, refl, refl), rw (two) (refl, refl, refl), rw (three) t)
