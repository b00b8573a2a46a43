-- ===== src/Motor/Bemf/Filter.antt =====
-- The comparator filter of `BemfState` in rm32/src/control/state.rs over a sequence of samples.
use rm.Prelude.{
  ℕ, suc, ◌+◌, ◌≤◌, ◌<◌, ◌≡◌, refl, ◌∙◌, arith, Bool, true, false, not, List, [], ◌∷◌, ltb,
  if◌then◌else◌,
}
use rm.Motor.Bemf.{
  BemfState, threshold, reset_for_step, zero_cross_detected, update, record_zero_cross,
}

-- All samples of one sector, in order.
abbrev pub updates : BemfState → Bool → List Bool → BemfState
updates b rising [] = b
updates b rising (s ∷ ss) = updates (update b s rising) rising ss

-- The comparator is inverted: a rising edge expects it low, a falling one high.
abbrev pub agrees : Bool → Bool → Bool
agrees rising s = if rising then not s else s

abbrev pub good : Bool → List Bool → ℕ
good rising [] = 0
good rising (s ∷ ss) = if agrees rising s then suc (good rising ss) else good rising ss

abbrev pub bad : Bool → List Bool → ℕ
bad rising [] = 0
bad rising (s ∷ ss) = if agrees rising s then bad rising ss else suc (bad rising ss)

updates_counts :
    (b : BemfState) (rising : Bool) (ss : List Bool)
    → b.bad_count + bad rising ss ≤ b.bad_count_threshold
    → b.bad_count_threshold < 255
    → b.counter + good rising ss < 256
    → ((updates b rising ss).counter ≡ b.counter + good rising ss)
      × ((updates b rising ss).bad_count ≡ b.bad_count + bad rising ss)
      × ((updates b rising ss).zc_found ≡ b.zc_found)
      × (threshold (updates b rising ss) rising ≡ threshold b rising)
unfolding update
updates_counts b rising [] h t c = (omega arith, omega arith, refl, refl)
updates_counts b true (true ∷ ss) h t c =
    ground (arith, updates_counts (update b true true) true ss)
updates_counts b true (false ∷ ss) h t c =
    ground (arith, updates_counts (update b false true) true ss)
updates_counts b false (true ∷ ss) h t c =
    ground (arith, updates_counts (update b true false) false ss)
updates_counts b false (false ∷ ss) h t c =
    ground (arith, updates_counts (update b false false) false ss)

-- From a fresh sector, as long as the samples that disagree with the expected edge do not exceed
-- the bad-count threshold and fewer than 256 agree, a zero cross is detected exactly when more
-- samples agree than the minimum count asks for, in whatever order they come.
pub detects_iff :
    (b : BemfState) (rising : Bool) (ss : List Bool)
    → b.bad_count_threshold < 255
    → bad rising ss ≤ b.bad_count_threshold
    → good rising ss < 256
    → zero_cross_detected (updates (reset_for_step b) rising ss) rising
      ≡ ltb (threshold b rising) (good rising ss)
unfolding zero_cross_detected reset_for_step
detects_iff b true ss t h c = ground (arith, updates_counts (reset_for_step b) true ss)
detects_iff b false ss t h c = ground (arith, updates_counts (reset_for_step b) false ss)

-- A disagreeing sample past the threshold clears the count, so that nothing is detected, whatever
-- was counted before; an agreeing one never touches the count of the others.
pub update_rejects :
    (b : BemfState) (s rising : Bool)
    → (agrees rising s ≡ false
        → b.bad_count_threshold ≤ b.bad_count
        → b.bad_count_threshold < 255
        → ((update b s rising).counter ≡ 0)
          × (zero_cross_detected (update b s rising) rising ≡ false))
      × (agrees rising s ≡ true → (update b s rising).bad_count ≡ b.bad_count)
unfolding update zero_cross_detected
update_rejects b true true = (λ a h t. (ground arith, ground arith), λ a. ground arith)
update_rejects b true false = (λ a h t. (ground arith, ground arith), λ a. ground arith)
update_rejects b false true = (λ a h t. (ground arith, ground arith), λ a. ground arith)
update_rejects b false false = (λ a h t. (ground arith, ground arith), λ a. ground arith)

update-found : (b : BemfState) (s rising : Bool) → (update b s rising).zc_found ≡ b.zc_found
unfolding update
update-found b s rising = ground arith

updates-found :
    (b : BemfState) (rising : Bool) (ss : List Bool) → (updates b rising ss).zc_found ≡ b.zc_found
updates-found b rising [] = refl
updates-found b rising (s ∷ ss) =
    updates-found (update b s rising) rising ss ∙ update-found b s rising

-- A recorded zero cross is not detected a second time, whatever samples follow, until the sector
-- is reset.
pub detected_once :
    (b : BemfState) (t ci : ℕ) (rising : Bool) (ss : List Bool)
    → zero_cross_detected (updates (record_zero_cross b t ci).0 rising ss) rising ≡ false
unfolding zero_cross_detected record_zero_cross
detected_once b t ci rising ss = rw (updates-found (record_zero_cross b t ci).0 rising ss)
