-- ===== src/Examples/SignalWidths.antt =====
-- Runs of the theorems of Signal.Widths on concrete inputs.
use rm.Prelude.{[], arith, ◌∷◌, ◌≡◌}
use rm.Signal.{classify, detect_input, no_burst}
use rm.Signal.Widths.{detect_input-edges, edges_from, widths}

detect_input-edges_example :
    detect_input (11385 ∷ (65500 ∷ edges_from 65500 (7 ∷ (13 ∷ (7 ∷ (13 ∷ []))))))
    ≡ classify (widths no_burst (7 ∷ (13 ∷ (7 ∷ (13 ∷ [])))))
detect_input-edges_example =
    detect_input-edges 11385 65500 (7 ∷ (13 ∷ (7 ∷ (13 ∷ [])))) (omega arith) (omega arith)
      (omega arith) (omega arith)
