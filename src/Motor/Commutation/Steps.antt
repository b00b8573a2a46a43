-- ===== src/Motor/Commutation/Steps.antt =====
-- The sector of rm32/src/commutation.rs: its range, its edge, and the closed six-step cycle.
use rm.Prelude.{
  ℕ, zero, suc, refl, List, ◌+◌, ◌%◌, ◌≤◌, ◌≡◌, Bool, true, false, not, arith, if◌then◌else◌, ◌==◌,
}
use rm.Motor.Commutation.{Commutation, is_even, advance, set_step, set_forward}

-- The sector is one of six.
pub record InSector (c : Commutation) : Type 0 where
  pub low : 1 ≤ c.step
  pub high : c.step ≤ 6

-- The edge that the next zero crossing has in the sector, for the direction of travel.
abbrev pub EdgeMatches : Commutation → Type 0
EdgeMatches c = c.rising ≡ (if c.forward then not (is_even c.step) else is_even c.step)

abbrev pub is_six : ℕ → Bool
is_six n = n == 6

abbrev pub is_one : ℕ → Bool
is_one n = n == 1

-- From a sector in range, a step goes to the neighbouring sector in the direction of travel, sets
-- the edge of that sector, raises the desync flag just when it passes the end of the cycle and
-- keeps it otherwise, and leaves the direction, the intervals and their sum alone.
pub advance_lem :
    (c : Commutation)
    → InSector c
    → let d = advance c in
      InSector d
      × EdgeMatches d
      × (c.forward ≡ true → d.step ≡ c.step % 6 + 1)
      × (c.forward ≡ false → c.step ≡ d.step % 6 + 1)
      × (d.desync_check ≡ (
          if c.forward
          then (if is_six c.step then true else c.desync_check)
          else if is_one c.step
          then true
          else c.desync_check))
      × (d.forward ≡ c.forward)
      × (d.intervals ≡ c.intervals)
      × (d.interval_sum ≡ c.interval_sum)
unfolding advance
advance_lem c v = ground arith

-- Any value that is set as the step ends in the cycle, with the edge of that sector.
pub set_step-InSector :
    (c : Commutation) (v : ℕ) → InSector (set_step c v) × EdgeMatches (set_step c v)
unfolding set_step
set_step-InSector c v = ground arith

-- Turning round undoes a step.
pub advance-back :
    (c : Commutation)
    → InSector c
    → (advance (set_forward (advance c) (not c.forward))).step ≡ c.step
unfolding advance set_forward
advance-back c v = ground arith

abbrev pub advances : ℕ → Commutation → Commutation
advances ℕ.zero c = c
advances (ℕ.suc n) c = advances n (advance c)

at : ℕ → Bool → Bool → Bool → List ℕ → ℕ → Commutation
at s f r d xs t = record {
  step = s;
  forward = f;
  rising = r;
  desync_check = d;
  intervals = xs;
  interval_sum = t;
}

-- Each of the six sectors by computation.
six_at :
    (s : ℕ) (f r d : Bool) (xs : List ℕ) (t : ℕ)
    → 1 ≤ s
    → s ≤ 6
    → ((advances 6 (at s f r d xs t)).step ≡ s)
      × ((advances 6 (at s f r d xs t)).desync_check ≡ true)
unfolding advance at
six_at zero f r d xs t l h = absurd (omega arith)
six_at (suc zero) true r d xs t l h = (refl, refl)
six_at (suc zero) false r d xs t l h = (refl, refl)
six_at (suc (suc zero)) true r d xs t l h = (refl, refl)
six_at (suc (suc zero)) false r d xs t l h = (refl, refl)
six_at (suc (suc (suc zero))) true r d xs t l h = (refl, refl)
six_at (suc (suc (suc zero))) false r d xs t l h = (refl, refl)
six_at (suc (suc (suc (suc zero)))) true r d xs t l h = (refl, refl)
six_at (suc (suc (suc (suc zero)))) false r d xs t l h = (refl, refl)
six_at (suc (suc (suc (suc (suc zero))))) true r d xs t l h = (refl, refl)
six_at (suc (suc (suc (suc (suc zero))))) false r d xs t l h = (refl, refl)
six_at (suc (suc (suc (suc (suc (suc zero)))))) true r d xs t l h = (refl, refl)
six_at (suc (suc (suc (suc (suc (suc zero)))))) false r d xs t l h = (refl, refl)
six_at (suc (suc (suc (suc (suc (suc (suc n))))))) f r d xs t l h = absurd (omega arith)

-- Six steps in one direction are a full electrical cycle: they come back to the sector, and the
-- desync flag is raised, since the end of the cycle was passed.
pub advance_six :
    (c : Commutation)
    → InSector c
    → ((advances 6 c).step ≡ c.step) × ((advances 6 c).desync_check ≡ true)
unfolding at
advance_six c v =
    six_at c.step c.forward c.rising c.desync_check c.intervals c.interval_sum v.low v.high
