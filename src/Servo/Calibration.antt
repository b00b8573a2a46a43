-- ===== src/Servo/Calibration.antt =====
-- The stick calibration of rm32/src/servo.rs: it ends, and what it stores.
use rm.Prelude.{
  ℕ, ◌+◌, ◌*◌, ◌≤◌, ◌≡◌, arith, Bool, true, false, if◌then◌else◌, inl, inr, Bool-cases, not, ◌||◌,
  ltb, ◌&&◌, refl, List, [], ◌∷◌, ap, ◌∙◌,
}
use rm.Servo.{ServoState, ServoResult, calibrate_high, calibrate_low, process_calibration, compute}

-- A run of pulses, each with the throttle input of its time.
unfoldable pub pulses_seen : ServoState → Bool → List (ℕ × ℕ) → ServoState
pulses_seen s bidirectional [] = s
pulses_seen s bidirectional ((pulse, newinput) ∷ ps) =
    pulses_seen (compute s pulse newinput bidirectional).0 bidirectional ps

abbrev pub one_if_in_range : ℕ → ℕ
one_if_in_range pulse = if ltb 800 pulse && ltb pulse 2200 then 1 else 0

-- The number of pulses that are wide enough and not too wide to be looked at.
unfoldable pub in_range : List (ℕ × ℕ) → ℕ
in_range [] = 0
in_range ((pulse, newinput) ∷ ps) = one_if_in_range pulse + in_range ps

-- The high stage is over: the calibration was aborted, or it has gone on to the low stage or ended.
abbrev pub is_over : ServoState → Bool
is_over s = not s.calibration_required || s.high_calibration_set

stays_over_once :
    (s : ServoState) (pulse newinput : ℕ) (bidirectional : Bool)
    → is_over s ≡ true
    → is_over (compute s pulse newinput bidirectional).0 ≡ true
unfolding compute process_calibration calibrate_low
stays_over_once s pulse newinput bidirectional h = ground arith

stays_over :
    (s : ServoState) (bidirectional : Bool) (ps : List (ℕ × ℕ))
    → is_over s ≡ true
    → is_over (pulses_seen s bidirectional ps) ≡ true
unfolding pulses_seen
stays_over s bidirectional [] h = h
stays_over s bidirectional ((pulse, newinput) ∷ ps) h =
    stays_over (compute s pulse newinput bidirectional).0 bidirectional ps
      (stays_over_once s pulse newinput bidirectional h)

-- A pulse in range is counted as long as the high stage goes on; the others leave the state alone.
counts :
    (s : ServoState) (pulse newinput : ℕ) (bidirectional : Bool)
    → is_over s ≡ false
    → s.high_calibration_counts ≤ 50
    → let t = (compute s pulse newinput bidirectional).0 in
      is_over t ≡ false
      → (t.high_calibration_counts ≡ s.high_calibration_counts + one_if_in_range pulse)
        × (t.high_calibration_counts ≤ 50)
unfolding compute process_calibration calibrate_high
counts s pulse newinput bidirectional h k e = ground arith

-- The high stage of a calibration ends after at most 51 pulses of 801 to 2199 us, whatever their
-- widths and whatever arrives between them, since pulses of other widths are ignored: with a counter
-- of at most 50, and enough pulses in that range for it to pass 50, the stage has been aborted or
-- completed.
pub calibration_ends :
    (s : ServoState) (bidirectional : Bool) (ps : List (ℕ × ℕ))
    → s.high_calibration_counts ≤ 50
    → 51 ≤ s.high_calibration_counts + in_range ps
    → is_over (pulses_seen s bidirectional ps) ≡ true
unfolding pulses_seen in_range
calibration_ends s bidirectional [] k h = absurd (omega arith)
calibration_ends s bidirectional ((pulse, newinput) ∷ ps) k h =
    let t = (compute s pulse newinput bidirectional).0 in
    elim (Bool-cases (is_over t)) [
      | inl f ↦ stays_over t bidirectional ps f
      | inr f ↦ elim (Bool-cases (is_over s)) [
        | inl e ↦ stays_over s bidirectional ((pulse, newinput) ∷ ps) e
        | inr e ↦
            let c = counts s pulse newinput bidirectional e k f in
            calibration_ends t bidirectional ps c.1 (ground arith)
      ]
    ]

skipped_once :
    (s : ServoState) (pulse newinput : ℕ) (bidirectional : Bool)
    → one_if_in_range pulse ≡ 0
    → (compute s pulse newinput bidirectional).0 ≡ s
unfolding compute
skipped_once s pulse newinput bidirectional h = ground arith

-- Pulses out of range leave the state as it is, so that a calibration waits for the next one in range.
pub pulses_seen-ignored :
    (s : ServoState) (bidirectional : Bool) (ps : List (ℕ × ℕ))
    → in_range ps ≡ 0
    → pulses_seen s bidirectional ps ≡ s
unfolding pulses_seen in_range
pulses_seen-ignored s bidirectional [] h = refl
pulses_seen-ignored s bidirectional ((pulse, newinput) ∷ ps) h =
    ap (λ t. pulses_seen t bidirectional ps)
      (skipped_once s pulse newinput bidirectional (omega arith))
    ∙ pulses_seen-ignored s bidirectional ps (omega arith)

-- The two bytes that a completed calibration stores, against the thresholds that it leaves. A low
-- threshold of 750 to 1261 and a high one of 1750 to 2261 are stored to within one microsecond, as
-- `750 + 2 * byte` and `1750 + 2 * byte`; a low threshold of 1262 to 1773 is stored as a value at
-- least 512 below it.
pub calibration_bytes :
    (s t : ServoState) (pulse low high : ℕ)
    → calibrate_low s pulse ≡ (t, ServoResult.calibration_done low high)
    → (t.calibration_required ≡ false)
      × (750 ≤ t.low_threshold
          → t.low_threshold ≤ 1261
          → (750 + 2 * low ≤ t.low_threshold) × (t.low_threshold ≤ 751 + 2 * low))
      × (1750 ≤ t.high_threshold
          → t.high_threshold ≤ 2261
          → (1750 + 2 * high ≤ t.high_threshold) × (t.high_threshold ≤ 1751 + 2 * high))
      × (1262 ≤ t.low_threshold → t.low_threshold ≤ 1773 → 750 + 2 * low + 512 ≤ t.low_threshold)
unfolding calibrate_low
calibration_bytes s t pulse low high e = ground arith
