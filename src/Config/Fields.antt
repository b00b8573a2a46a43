-- ===== src/Config/Fields.antt =====
-- What the normalisation of rm32/src/config.rs changes, and what it guarantees.
use rm.Prelude.{
  get_or-set, ℕ, ◌*◌, ◌≤◌, ◌<◌, ◌≡◌, ◌≢◌, ◌∙◌, arith, leb, ◌==◌, ◌&&◌, length, if◌then◌else◌,
  length-set, Bool-cases, inl, inr, ◌⊎◌,
}
use rm.Config.{
  Config, field, temp_advance, apply_rc_car_overrides, apply_comp_pwm_guard, normalize_after_load,
}
use rm.Config.At

-- The advance is always below the half interval that it is subtracted from, 32 of 64, and the legacy
-- scale of 0 to 3 is eight times as coarse.
pub temp_advance_bounds :
    (c : Config)
    → (temp_advance c ≤ 32)
      × (field c At.advance_level ≤ 3 → temp_advance c ≡ 8 * field c At.advance_level)
unfolding temp_advance
temp_advance_bounds c = (ground arith, λ h. ground arith)

rc_car :
    (c : Config) (j : ℕ)
    → length c ≡ 192
    → field c At.rc_car_reverse ≢ 0
    → field (apply_rc_car_overrides c) j ≡ (
        if j == 18 then 1 else if j == 22 then 0 else if leb 19 j && leb j 21 then 0 else field c j)
unfolding apply_rc_car_overrides
rc_car c j n h = grind (arith, get_or-set, length-set {0})

length-rc_car : (c : Config) → length (apply_rc_car_overrides c) ≡ length c
unfolding apply_rc_car_overrides
length-rc_car c = grind (arith, length-set {0})

rc_car-off : (c : Config) → field c At.rc_car_reverse ≡ 0 → apply_rc_car_overrides c ≡ c
unfolding apply_rc_car_overrides
rc_car-off c h = ground arith

guarded :
    (c : Config) (j : ℕ)
    → length c ≡ 192
    → field (apply_comp_pwm_guard c) j
      ≡ (if field c At.comp_pwm == 0 && j == 19 then 0 else field c j)
unfolding apply_comp_pwm_guard
guarded c j n = grind (arith, get_or-set)

length-guarded : (c : Config) → length (apply_comp_pwm_guard c) ≡ length c
unfolding apply_comp_pwm_guard
length-guarded c = grind (arith, length-set {0})

-- After loading, a configuration of 192 bytes has sine start only with complementary PWM; in RC-car
-- mode it is bidirectional, without complementary and variable PWM, sine start and stuck-rotor
-- protection; every byte outside the five from `bi_direction` to `stuck_rotor_protection` keeps its
-- value, and the size stays.
pub normalize_after_load_lem :
    (c : Config) (j : ℕ)
    → length c ≡ 192
    → let d = normalize_after_load c in
      (field d At.use_sine_start ≢ 0 → field d At.comp_pwm ≢ 0)
      × (field c At.rc_car_reverse ≢ 0
          → (field d At.bi_direction ≡ 1)
            × (field d At.comp_pwm ≡ 0)
            × (field d At.variable_pwm ≡ 0)
            × (field d At.use_sine_start ≡ 0)
            × (field d At.stuck_rotor_protection ≡ 0))
      × (j < 18 → field d j ≡ field c j)
      × (22 < j → field d j ≡ field c j)
      × (length d ≡ 192)
unfolding normalize_after_load
normalize_after_load_lem c j n = (
  λ h e. ground (arith, at_guard 19, at_guard 20),
  λ h. (
    ground (arith, at_guard 18, rc_car c 18 n h),
    ground (arith, at_guard 20, rc_car c 20 n h),
    ground (arith, at_guard 21, rc_car c 21 n h),
    ground (arith, at_guard 19, rc_car c 19 n h),
    ground (arith, at_guard 22, rc_car c 22 n h),
  ),
  λ h. ground (arith, at_guard j, kept j),
  λ h. ground (arith, at_guard j, kept j),
  length-guarded (apply_rc_car_overrides c) ∙ (length-rc_car c ∙ n),
)
  where
    at_guard :
        (i : ℕ)
        → field (apply_comp_pwm_guard (apply_rc_car_overrides c)) i ≡ (
            if field (apply_rc_car_overrides c) At.comp_pwm == 0 && i == 19
            then 0
            else field (apply_rc_car_overrides c) i)
    at_guard i = guarded (apply_rc_car_overrides c) i (length-rc_car c ∙ n)

    kept : (i : ℕ) → (i < 18) ⊎ (22 < i) → field (apply_rc_car_overrides c) i ≡ field c i
    kept i h = elim (Bool-cases (field c At.rc_car_reverse == 0)) [
      | inl e ↦ rw (rc_car-off c (ground arith))
      | inr e ↦ ground (arith, rc_car c i n (ground arith))
    ]
