-- ===== src/Examples/MotorBemfFilter.antt =====
-- Runs of the theorems of Motor.Bemf.Filter on concrete inputs.
use rm.Examples.Data.{sensing}
use rm.Motor.Bemf.{reset_for_step, threshold, zero_cross_detected}
use rm.Motor.Bemf.Filter.{detects_iff, good, updates}
use rm.Prelude.{[], arith, false, ltb, true, ◌∷◌, ◌≡◌}

detects_iff_example :
    zero_cross_detected
      (updates (reset_for_step sensing) true (false ∷ (true ∷ (false ∷ (false ∷ (false ∷ []))))))
      true
    ≡ ltb (threshold sensing true) (good true (false ∷ (true ∷ (false ∷ (false ∷ (false ∷ []))))))
detects_iff_example =
    detects_iff sensing true (false ∷ (true ∷ (false ∷ (false ∷ (false ∷ []))))) (omega arith)
      (omega arith) (omega arith)
