-- ===== src/Control/Comparator.antt =====
-- The comparator interrupt of rm32/src/control/isr_logic.rs: `on_bemf_irq`, the gate, and
-- `bemf_zero_cross`, the noise filter and the timing of an accepted crossing. The k-th read of the
-- filtered comparator is the k-th value of a function.
pub mod Gate
use rm.Prelude.{
  ℕ, zero, suc, ◌+◌, ◌/◌, Bool, true, false, not, ◌||◌, List, [], ◌∷◌, ltb, ◌==◌, if◌then◌else◌,
  min_of,
}
use rm.Prelude.Tests.{bool_eq}
use rm.Bridge.{HalCall, mask_irq, clear_pending, repend, set_count, set_and_enable}
use rm.Motor.Bemf
use rm.Motor.Bemf.{BemfState}
use rm.Shared.State.{SharedState, running, old_routine}

pub data BemfIrq : Type 0 where
  spurious opened noise camp : BemfIrq

-- What the gate reads: the pending bit, the interval timer, and the level before and after a clear.
pub record GateReads : Type 0 where
  pub pending : Bool
  pub count : ℕ
  pub level : Bool
  pub level_after_clear : Bool

-- The outcome, whether the hook `entered` ran, and the calls on the sensor, the newest first.
pub record GateResult : Type 0 where
  pub outcome : BemfIrq
  pub entered : Bool
  pub calls : List HalCall

abbrev gated : BemfIrq → List HalCall → GateResult
gated outcome cs = record { outcome = outcome; entered = true; calls = cs }

unfoldable pub on_bemf_irq : SharedState → GateReads → Bool → GateResult
on_bemf_irq s r rising =
    if not r.pending
    then record { outcome = spurious; entered = false; calls = [] }
    else if s.gate_avg == 0
    then gated noise (clear_pending ∷ [])
    else if ltb (s.gate_avg / 2) r.count
    then gated opened (clear_pending ∷ [])
    else if bool_eq r.level rising
    then gated noise (
        if not (bool_eq r.level_after_clear rising)
        then repend ∷ clear_pending ∷ []
        else clear_pending ∷ [])
    else gated camp []

-- Whether one of the `n` filter reads from the `k`-th on is at the level before the crossing.
unfoldable pub noisy : (ℕ → Bool) → Bool → ℕ → ℕ → Bool
noisy reads rising k zero = false
noisy reads rising k (suc n) =
    let rest = noisy reads rising (k + 1) n in if bool_eq (reads k) rising then true else rest

pub record ZeroCross : Type 0 where
  pub accepted : Bool
  pub bemf : BemfState
  pub calls : List HalCall

unfoldable pub bemf_zero_cross : SharedState → Bool → BemfState → (ℕ → Bool) → ℕ → ZeroCross
bemf_zero_cross s rising b reads interval_count =
    let timed = Bemf.record_zc_timing b (min_of interval_count 65535) in
    if not (running s) || old_routine s
    then record { accepted = false; bemf = b; calls = mask_irq ∷ [] }
    else if noisy reads rising 0 b.filter_level
    then record { accepted = false; bemf = b; calls = [] }
    else record {
      accepted = true;
      bemf = timed;
      calls = set_and_enable (Bemf.com_timer_delay timed) ∷ set_count 0 ∷ mask_irq ∷ [];
    }
