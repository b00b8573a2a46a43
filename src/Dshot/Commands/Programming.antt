-- ===== src/Dshot/Commands/Programming.antt =====
-- The programming sequence of rm32/src/dshot_commands.rs.
use rm.Prelude.{
  get_or-set, ℕ, ◌≤◌, ◌<◌, ◌≡◌, ◌≢◌, refl, ap, arith, false, ltb, ◌==◌, if◌then◌else◌, Option, none,
  some, List, [], ◌∷◌, u8, set, length, ◌++◌, ◌∙◌,
}
use rm.Config.{Config, field}
use rm.Dshot.Commands.{
  CommandProcessor, CommandResult, programming_commit, process_programming, in_programming_mode,
}

abbrev pub values :
    List ℕ
    → CommandProcessor × Config × Option CommandResult
    → CommandProcessor × Config × Option CommandResult
values [] s = s
values (v ∷ vs) (p, c, r) = values vs (process_programming p v c)

abbrev pub NoCommit : List ℕ → Type 0
NoCommit [] = Unit {0}
NoCommit (v ∷ vs) = (v ≢ 37) × NoCommit vs

abbrev ready : CommandProcessor → ℕ → ℕ → CommandProcessor
ready p position byte = record p { programming_mode = 3; position = position; new_byte = byte }

stays :
    (p : CommandProcessor) (c : Config) (position byte v : ℕ)
    → v ≢ 37
    → process_programming (ready p position byte) v c ≡ (ready p position byte, c, none)
unfolding process_programming
stays p c position byte v h = ground arith

commits :
    (p : CommandProcessor) (c : Config) (position byte : ℕ)
    → process_programming (ready p position byte) 37 c ≡ (
      record (ready p position byte) { programming_mode = 0 },
      if ltb position 192 then set c position byte else c,
      if ltb position 192 then some (programming_commit position byte) else none,
    )
unfolding process_programming
commits p c position byte = ground arith

after_wait :
    (p : CommandProcessor) (c : Config) (position byte : ℕ) (vs : List ℕ)
    → NoCommit vs
    → values (vs ++ 37 ∷ []) (ready p position byte, c, none) ≡ (
      record (ready p position byte) { programming_mode = 0 },
      if ltb position 192 then set c position byte else c,
      if ltb position 192 then some (programming_commit position byte) else none,
    )
after_wait p c position byte [] h = commits p c position byte
after_wait p c position byte (v ∷ vs) h =
    ap (values (vs ++ 37 ∷ [])) (stays p c position byte v h.0)
    ∙ after_wait p c position byte vs h.1

opened :
    (p : CommandProcessor) (c : Config) (position byte : ℕ)
    → p.programming_mode ≡ 1
    → values (position ∷ byte ∷ []) (p, c, none) ≡ (ready p position (u8 byte), c, none)
unfolding process_programming
opened p c position byte e = ground arith

-- In the first programming mode and on 192 bytes, a programming sequence is an offset, a value,
-- and any further values up to the first 37, which ends it: with an offset inside the
-- configuration the low byte of the value is stored there, every other byte is kept, and the
-- commit is reported; with any other offset nothing is changed or reported.
pub programming_sequence :
    (p : CommandProcessor) (c : Config) (position byte : ℕ) (vs : List ℕ) (j : ℕ)
    → p.programming_mode ≡ 1
    → length c ≡ 192
    → NoCommit vs
    → let r = values (position ∷ (byte ∷ (vs ++ 37 ∷ []))) (p, c, none) in
      (in_programming_mode r.0 ≡ false)
      × (position < 192
          → (field r.1 j ≡ (if position == j then u8 byte else field c j))
            × (r.2 ≡ some (programming_commit position (u8 byte))))
      × (192 ≤ position → (r.1 ≡ c) × (r.2 ≡ none))
unfolding in_programming_mode
programming_sequence p c position byte vs j e n h =
    rw (whole) (refl, λ l. ground (arith, get_or-set c position j (u8 byte)), λ g. ground arith)
  where
    whole : values (position ∷ (byte ∷ (vs ++ 37 ∷ []))) (p, c, none) ≡ (
      record (ready p position (u8 byte)) { programming_mode = 0 },
      if ltb position 192 then set c position (u8 byte) else c,
      if ltb position 192 then some (programming_commit position (u8 byte)) else none,
    )
    whole =
        ap (values (vs ++ 37 ∷ [])) (opened p c position byte e)
        ∙ after_wait p c position (u8 byte) vs h
