-- ===== src/Control/Comparator/Gate.antt =====
-- When the gate opens, and what a crossing needs to be accepted.
use rm.Prelude.{
  ℕ, zero, suc, ◌+◌, ◌/◌, ◌<◌, ◌≤◌, Bool, true, false, ◌&&◌, List, [], ◌∷◌, ◌≡◌, ◌↔◌, refl,
  if◌then◌else◌, arith, ◌⊎◌, sym,
}
use native.Mathlib.Decide.{ℕ_discrete}
use rm.Prelude.Tests.{bool_eq}
use rm.Bridge.{HalCall, mask_irq, clear_pending, repend}
use rm.Motor.Mode
use rm.Motor.Mode.{MotorMode, disarmed, armed, stepper_sine, old_routine, running}
use rm.Motor.Bemf.{BemfState}
use rm.Shared.State.{SharedState}
use rm.Control.Comparator.{BemfIrq, opened, camp, GateReads, on_bemf_irq, noisy, bemf_zero_cross}

unfoldable pub is_opened : BemfIrq → Bool
is_opened opened = true
is_opened _ = false

unfoldable pub is_camp : BemfIrq → Bool
is_camp camp = true
is_camp _ = false

-- The pending bit after the calls, of which the newest stands first: a clear drops it, and a repend
-- sets it again.
unfoldable pub pending_after : Bool → List HalCall → Bool
pending_after pending [] = pending
pending_after pending (clear_pending ∷ cs) = false
pending_after pending (repend ∷ cs) = true
pending_after pending (_ ∷ cs) = pending_after pending cs

-- The gate opens exactly on a pending edge once an average is latched and the interval timer is past
-- half of it, and it camps exactly where a latched average keeps it shut on a pending edge with the
-- comparator at the level after the crossing. The edge is pending afterwards exactly where a latched
-- average keeps the gate shut on a pending edge and the comparator is at the level after the crossing
-- either at the first read or at the read after the clear, where the edge is pended again.
pub on_bemf_irq_gate :
    (s : SharedState) (r : GateReads) (rising : Bool)
    → ((is_opened ((on_bemf_irq s r rising).outcome) ≡ true)
        ↔ ((r.pending ≡ true) × (0 < s.gate_avg) × (s.gate_avg / 2 < r.count)))
      × ((is_camp ((on_bemf_irq s r rising).outcome) ≡ true) ↔ (
          (r.pending ≡ true)
          × (0 < s.gate_avg)
          × (r.count ≤ s.gate_avg / 2)
          × (bool_eq r.level rising ≡ false)))
      × ((pending_after r.pending ((on_bemf_irq s r rising).calls) ≡ true) ↔ (
          (r.pending ≡ true)
          × (0 < s.gate_avg)
          × (r.count ≤ s.gate_avg / 2)
          × (bool_eq r.level rising && bool_eq r.level_after_clear rising ≡ false)))
unfolding on_bemf_irq is_opened is_camp pending_after
on_bemf_irq_gate s r rising = ground arith

first_read : (b rest : Bool) → (if b then true else rest) ≡ false → b ≡ false
first_read true rest h = h
first_read false rest h = refl

noisy_none :
    (reads : ℕ → Bool) (rising : Bool) (k n : ℕ)
    → noisy reads rising k n ≡ false
    → (i : ℕ) → k ≤ i
    → i < k + n
    → bool_eq (reads i) rising ≡ false
unfolding noisy
noisy_none reads rising k zero h i low high = absurd (omega arith)
noisy_none reads rising k (suc n) h i low high = elim (ℕ_discrete k i) [
  | yes e ↦ rw (sym e) (first_read (bool_eq (reads k) rising) _ h)
  | no e ↦ noisy_none reads rising (k + 1) n (ground arith) i (omega arith) (omega arith)
]

all_none :
    (reads : ℕ → Bool) (rising : Bool) (k n : ℕ)
    → ((i : ℕ) → k ≤ i → i < k + n → bool_eq (reads i) rising ≡ false)
    → noisy reads rising k n ≡ false
unfolding noisy
all_none reads rising k zero h = refl
all_none reads rising k (suc n) h =
    let here = h k (omega arith) (omega arith) in
    let rest = all_none reads rising (k + 1) n (λ i low high. h i (omega arith) (omega arith)) in
    ground arith

accepts_at :
    (s : SharedState) (m : MotorMode) (rising : Bool) (b : BemfState) (reads : ℕ → Bool) (count : ℕ)
    → ((bemf_zero_cross (record s { motor_mode = m }) rising b reads count).accepted ≡ true)
      ↔ ((m ≡ running) × (noisy reads rising 0 b.filter_level ≡ false))
unfolding bemf_zero_cross Mode.is_running Mode.is_old_routine Mode.is_running_mode
accepts_at s disarmed rising b reads count = ground arith
accepts_at s armed rising b reads count = ground arith
accepts_at s stepper_sine rising b reads count = ground arith
accepts_at s old_routine rising b reads count = ground arith
accepts_at s running rising b reads count = ground arith

-- A zero crossing is accepted exactly in interrupt-driven six-step mode when every one of the filter
-- reads is at the level after the crossing.
pub bemf_zero_cross_accepts :
    (s : SharedState) (rising : Bool) (b : BemfState) (reads : ℕ → Bool) (count : ℕ)
    → ((bemf_zero_cross s rising b reads count).accepted ≡ true) ↔ (
        (s.motor_mode ≡ running)
        × ((i : ℕ) → i < b.filter_level → bool_eq (reads i) rising ≡ false))
bemf_zero_cross_accepts s rising b reads count =
    let (there, back) = accepts_at s s.motor_mode rising b reads count in
    (
      (λ h.
          let (mode, quiet) = there h in
          (
            mode,
            λ i under. noisy_none reads rising 0 b.filter_level quiet i (omega arith) (omega arith),
          )),
      (λ h.
          let (mode, quiet) = h in
          back
            (mode, all_none reads rising 0 b.filter_level (λ i low high. quiet i (omega arith)))),
    )

-- A rejected crossing changes no timing and at most masks the comparator; in particular the running
-- commutation timer and the interval timer go on.
pub bemf_zero_cross_rejects :
    (s : SharedState) (rising : Bool) (b : BemfState) (reads : ℕ → Bool) (count : ℕ)
    → (bemf_zero_cross s rising b reads count).accepted ≡ false
    → ((bemf_zero_cross s rising b reads count).bemf ≡ b)
      × (((bemf_zero_cross s rising b reads count).calls ≡ [])
          ⊎ ((bemf_zero_cross s rising b reads count).calls ≡ mask_irq ∷ []))
unfolding bemf_zero_cross
bemf_zero_cross_rejects s rising b reads count h = ground arith
