-- ===== src/Examples/ControlComparatorGate.antt =====
-- Runs of the theorems of Control.Comparator.Gate on concrete inputs.
use rm.Control.Comparator.{bemf_zero_cross, on_bemf_irq}
use rm.Control.Comparator.Gate.{
  bemf_zero_cross_accepts, is_camp, is_opened, on_bemf_irq_gate, pending_after,
}
use rm.Examples.Data.{sensing}
use rm.Examples.Motors.{late_edge, steady_cells, steady_level}
use rm.Motor.Mode.{running}
use rm.Prelude.{false, true, ℕ, ◌&&◌, ◌/◌, ◌<◌, ◌↔◌, ◌≡◌, ◌≤◌}
use rm.Prelude.Tests.{bool_eq}

on_bemf_irq_gate_example :
    ((is_opened ((on_bemf_irq steady_cells late_edge false).outcome) ≡ true) ↔ (
      (late_edge.pending ≡ true)
      × (0 < steady_cells.gate_avg)
      × (steady_cells.gate_avg / 2 < late_edge.count)))
    × ((is_camp ((on_bemf_irq steady_cells late_edge false).outcome) ≡ true) ↔ (
        (late_edge.pending ≡ true)
        × (0 < steady_cells.gate_avg)
        × (late_edge.count ≤ steady_cells.gate_avg / 2)
        × (bool_eq late_edge.level false ≡ false)))
    × ((pending_after late_edge.pending ((on_bemf_irq steady_cells late_edge false).calls) ≡ true)
        ↔ ((late_edge.pending ≡ true)
            × (0 < steady_cells.gate_avg)
            × (late_edge.count ≤ steady_cells.gate_avg / 2)
            × (bool_eq late_edge.level false && bool_eq late_edge.level_after_clear false ≡ false)))
on_bemf_irq_gate_example = on_bemf_irq_gate steady_cells late_edge false

bemf_zero_cross_accepts_example :
    ((bemf_zero_cross steady_cells true sensing steady_level 240).accepted ≡ true) ↔ (
      (steady_cells.motor_mode ≡ running)
      × ((i : ℕ) → i < sensing.filter_level → bool_eq (steady_level i) true ≡ false))
bemf_zero_cross_accepts_example = bemf_zero_cross_accepts steady_cells true sensing steady_level 240
