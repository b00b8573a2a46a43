-- ===== src/Prelude/Words.antt =====
-- Unsigned machine words: a value is a native number, and each operation that may leave its width
-- is reduced by hand. `shr` is a logical shift to the right; `all_below` checks a finite table.
use Prim.Native.Nat.{ℕ, zero, suc, ◌+◌, ◌-◌, ◌/◌, ◌%◌, ◌^◌, ◌<◌}
use mathlib.Core.Path.{◌≡◌}
use mathlib.Core.Bool.{Bool, true, ◌&&◌}
use native.Mathlib.Omega.{arith}
use rm.Prelude.Tests.{ltb, leb, if◌then◌else◌}

abbrev pub u32 : ℕ → ℕ
u32 word = word % 4294967296

abbrev pub u16 : ℕ → ℕ
u16 word = word % 65536

abbrev pub u8 : ℕ → ℕ
u8 byte = byte % 256

-- The difference of two words, modulo 2 ^ 16 and 2 ^ 32.
abbrev pub sub16 : ℕ → ℕ → ℕ
sub16 a b = (a + 65536 - b) % 65536

abbrev pub sub32 : ℕ → ℕ → ℕ
sub32 a b = (a + 4294967296 - b) % 4294967296

abbrev pub shr : ℕ → ℕ → ℕ
shr n k = n / 2 ^ k

-- `saturating_add` of u8 and u16.
abbrev pub sat_add8 : ℕ → ℕ → ℕ
sat_add8 a b = if ltb 255 (a + b) then 255 else a + b

abbrev pub sat_add16 : ℕ → ℕ → ℕ
sat_add16 a b = if ltb 65535 (a + b) then 65535 else a + b

abbrev pub min_of : ℕ → ℕ → ℕ
min_of a b = if leb a b then a else b

-- The test of every value under a limit.
unfoldable pub all_below : ℕ → (ℕ → Bool) → Bool
all_below zero test = true
all_below (suc last) test = all_below last test && test last

pub all_below_sound :
    (limit : ℕ) (test : ℕ → Bool) (value : ℕ)
    → all_below limit test ≡ true
    → value < limit
    → test value ≡ true
unfolding all_below
all_below_sound zero test value holds under = absurd (omega arith)
all_below_sound (suc last) test value holds under = ground (arith, all_below_sound last test value)
