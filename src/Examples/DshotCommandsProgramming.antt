-- ===== src/Examples/DshotCommandsProgramming.antt =====
-- Runs of the theorems of Dshot.Commands.Programming on concrete inputs.
use rm.Config.{field}
use rm.Dshot.Commands.{in_programming_mode, programming_commit}
use rm.Dshot.Commands.Programming.{programming_sequence, values}
use rm.Examples.Data.{blank, commander}
use rm.Prelude.{
  [], arith, false, if◌then◌else◌, none, refl, some, u8, ◌++◌, ◌<◌, ◌==◌, ◌∷◌, ◌≡◌, ◌≤◌,
}

programming_sequence_example :
    let r = values (40 ∷ (7 ∷ ((12 ∷ []) ++ 37 ∷ []))) (commander, blank, none) in
    (in_programming_mode r.0 ≡ false)
    × (40 < 192
        → (field r.1 41 ≡ (if 40 == 41 then u8 7 else field blank 41))
          × (r.2 ≡ some (programming_commit 40 (u8 7))))
    × (192 ≤ 40 → (r.1 ≡ blank) × (r.2 ≡ none))
programming_sequence_example =
    programming_sequence commander blank 40 7 (12 ∷ []) 41 refl refl ((omega arith), tt)
