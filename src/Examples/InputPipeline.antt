-- ===== src/Examples/InputPipeline.antt =====
-- Runs of the theorems of Input.Pipeline on concrete inputs.
use rm.Examples.Data.{blank, crawler, guarded, locked, protection, turning}
use rm.Input.{is_stuck, process_input}
use rm.Input.Pipeline.{pass, process_input_publishes, reversal_handshake}
use rm.Prelude.{arith, false, not, refl, true, ◌*◌, ◌+◌, ◌-◌, ◌≡◌}

reversal_handshake_example :
    let first = pass blank (turning, protection, crawler) 1500 in
    let second = pass blank first 20 in
    let third = pass blank second 1600 in
    ((first.0.adjusted_input ≡ 0)
      × (first.0.prop_brake ≡ true)
      × (first.0.forward ≡ turning.forward))
    × ((second.0.adjusted_input ≡ 0)
        × (second.0.prop_brake ≡ false)
        × (second.0.forward ≡ turning.forward))
    × ((third.0.adjusted_input ≡ (1600 - 1048) * 2 + 46)
        × (third.0.prop_brake ≡ false)
        × (third.0.forward ≡ not turning.forward))
unfolding is_stuck
reversal_handshake_example =
    reversal_handshake turning blank protection crawler 1500 20 1600 refl refl refl refl
      (ground arith) (omega arith) (omega arith) (omega arith) (omega arith)

process_input_publishes_example :
    let r = process_input turning guarded locked crawler in
    (r.0.adjusted_input ≡ r.2.input)
    × (r.0.prop_brake ≡ r.2.prop_brake_active)
    × (is_stuck locked guarded ≡ true
        → (r.2.input ≡ 0)
          × (r.2.prop_brake_active ≡ false)
          × (r.0.all_off ≡ true)
          × (r.1.bemf_timeout_happened ≡ 102))
    × (is_stuck locked guarded ≡ false → r.1 ≡ locked)
process_input_publishes_example = process_input_publishes turning guarded locked crawler
