-- ===== src/Arith/Delay.antt =====
-- rm32/src/functions.rs, `delay_micros_on`: the loop over the reads of a free-running down-counter.
-- The reads are a list; `none` means that they ran out before the time was over.
use rm.Prelude.{
  ℕ, zero, suc, ◌+◌, ◌-◌, ◌*◌, ◌≤◌, ◌<◌, ◌≡◌, arith, List, [], ◌∷◌, Option, none, some, length,
  if◌then◌else◌, ◌==◌, ◌≢◌, sub32, bit_and,
}

-- Counts that passed between two reads.
abbrev pub elapsed : ℕ → ℕ → ℕ → ℕ
elapsed mask prev now = bit_and (sub32 prev now) mask

-- The result is the number of reads that the loop made.
unfoldable pub delay_loop : ℕ → ℕ → ℕ → List ℕ → Option ℕ
delay_loop mask remaining prev [] = none
delay_loop mask remaining prev (now ∷ reads) =
    let left = remaining - elapsed mask prev now in
    let rest = delay_loop mask left now reads in
    if left == 0 then some 1 else elim rest [ none ↦ none | some n ↦ some (suc n) ]

unfoldable pub delay_micros_on : ℕ → ℕ → ℕ → List ℕ → Option ℕ
delay_micros_on us counts_per_us mask [] = none
delay_micros_on us counts_per_us mask (prev ∷ reads) =
    delay_loop mask (us * counts_per_us) prev reads

-- The counts that passed over the first n reads behind a read of `prev`.
pub passed : ℕ → ℕ → ℕ → List ℕ → ℕ
passed mask zero prev reads = 0
passed mask (suc n) prev [] = 0
passed mask (suc n) prev (now ∷ reads) = elapsed mask prev now + passed mask n now reads

delay_loop_lem :
    (mask remaining prev : ℕ) (reads : List ℕ) (n : ℕ)
    → delay_loop mask remaining prev reads ≡ some (suc n)
    → (remaining ≤ passed mask (suc n) prev reads)
      × (0 < n → passed mask n prev reads < remaining)
      × (n < length reads)
unfolding delay_loop passed
delay_loop_lem mask remaining prev [] n e = cc
delay_loop_lem mask remaining prev (now ∷ reads) zero e =
    ground (arith, delay_loop_lem mask (remaining - elapsed mask prev now) now reads 0)
delay_loop_lem mask remaining prev (now ∷ reads) (suc zero) e =
    ground (arith, delay_loop_lem mask (remaining - elapsed mask prev now) now reads 0)
delay_loop_lem mask remaining prev (now ∷ reads) (suc (suc n)) e =
    ground (arith, delay_loop_lem mask (remaining - elapsed mask prev now) now reads (suc n))

delay_loop_ends :
    (mask remaining prev : ℕ) (reads : List ℕ) (n : ℕ)
    → remaining ≤ passed mask (suc n) prev reads
    → n < length reads
    → delay_loop mask remaining prev reads ≢ none
unfolding delay_loop passed
delay_loop_ends mask remaining prev [] n h l = absurd (omega arith)
delay_loop_ends mask remaining prev (now ∷ reads) zero h l = ground arith
delay_loop_ends mask remaining prev (now ∷ reads) (suc n) h l =
    ground (arith, delay_loop_ends mask (remaining - elapsed mask prev now) now reads n)

-- When the delay returns after n + 1 reads behind the first, the requested counts have passed over
-- them and had not over one read less; and it does return if they pass over the reads that follow.
pub delay_micros_on_lem :
    (us counts mask prev : ℕ) (reads : List ℕ) (n : ℕ)
    → (delay_micros_on us counts mask (prev ∷ reads) ≡ some (suc n)
        → (us * counts ≤ passed mask (suc n) prev reads)
          × (0 < n → passed mask n prev reads < us * counts))
      × (us * counts ≤ passed mask (suc n) prev reads
          → n < length reads
          → delay_micros_on us counts mask (prev ∷ reads) ≢ none)
unfolding delay_micros_on
delay_micros_on_lem us counts mask prev reads n = (
  λ e. let f = delay_loop_lem mask (us * counts) prev reads n e in (f.0, f.1),
  λ h l. delay_loop_ends mask (us * counts) prev reads n h l,
)
