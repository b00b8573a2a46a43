-- ===== src/Dshot/Commands/Repeats.antt =====
-- When the commands of rm32/src/dshot_commands.rs take effect.
use rm.Prelude.{
  get_or-set, ℕ, zero, suc, ◌≤◌, ◌<◌, ◌≡◌, ◌≢◌, refl, ◌∙◌, arith, Bool, true, false, ◌==◌,
  if◌then◌else◌, ◌⊎◌, length, length-set,
}
use rm.Config.{field}
use rm.Dshot.Commands.{
  CommandProcessor, CommandResult, Borrowed, nothing, play_tone, apply, counted, process,
}

-- A disarmed or a running ESC ignores every command.
pub process_gated :
    (p : CommandProcessor) (cmd : ℕ) (armed running : Bool) (b : Borrowed) (edt : Bool)
    → (armed ≡ false) ⊎ (running ≡ true)
    → process p cmd armed running b edt ≡ (p, b, nothing)
unfolding process
process_gated p cmd armed running b edt h = ground arith

abbrev pub repeats :
    ℕ
    → ℕ
    → Bool
    → CommandProcessor × Borrowed × CommandResult
    → CommandProcessor × Borrowed × CommandResult
repeats zero cmd edt s = s
repeats (suc n) cmd edt (p, b, r) = repeats n cmd edt (process p cmd true false b edt)

waiting :
    (p : CommandProcessor) (cmd : ℕ) (b : Borrowed) (edt : Bool)
    → 5 < cmd
    → cmd < 256
    → (if cmd == p.last_command then p.command_count else 0) < 5
    → process p cmd true false b edt ≡ (
      record p {
        command_count = suc (if cmd == p.last_command then p.command_count else 0);
        last_command = cmd;
      },
      b,
      nothing,
    )
unfolding process counted
waiting p cmd b edt lo hi few = ground arith

taking :
    (p : CommandProcessor) (cmd : ℕ) (b : Borrowed) (edt : Bool)
    → 5 < cmd
    → cmd < 256
    → p.last_command ≡ cmd
    → p.command_count ≡ 5
    → process p cmd true false b edt ≡ apply cmd edt (record p { command_count = 0 }) b
unfolding process counted apply
taking p cmd b edt lo hi e c = ground arith

abbrev pub at : CommandProcessor → ℕ → ℕ → CommandProcessor
at p n cmd = record p { command_count = n; last_command = cmd }

again :
    (n : ℕ) (p : CommandProcessor) (cmd : ℕ) (b : Borrowed) (edt : Bool)
    → 5 < cmd
    → cmd < 256
    → n < 5
    → process (at p n cmd) cmd true false b edt ≡ (at p (suc n) cmd, b, nothing)
again n p cmd b edt lo hi few = waiting (at p n cmd) cmd b edt lo hi (ground arith) ∙ ground arith

first :
    (p : CommandProcessor) (cmd : ℕ) (b : Borrowed) (edt : Bool)
    → 5 < cmd
    → cmd < 256
    → p.last_command ≢ cmd
    → process p cmd true false b edt ≡ (at p 1 cmd, b, nothing)
first p cmd b edt lo hi new = waiting p cmd b edt lo hi (ground arith) ∙ ground arith

-- On an armed motor at rest, a command from 6 to 255 that was not the last one takes effect on
-- its sixth repetition in a row and not before: the first five leave the borrowed configuration,
-- the direction and the flags alone and ask for nothing; the sixth applies it and starts the
-- counter again.
pub process_sixth :
    (p : CommandProcessor) (cmd : ℕ) (b : Borrowed) (edt : Bool)
    → 5 < cmd
    → cmd < 256
    → p.last_command ≢ cmd
    → (repeats 1 cmd edt (p, b, nothing) ≡ (at p 1 cmd, b, nothing))
      × (repeats 2 cmd edt (p, b, nothing) ≡ (at p 2 cmd, b, nothing))
      × (repeats 3 cmd edt (p, b, nothing) ≡ (at p 3 cmd, b, nothing))
      × (repeats 4 cmd edt (p, b, nothing) ≡ (at p 4 cmd, b, nothing))
      × (repeats 5 cmd edt (p, b, nothing) ≡ (at p 5 cmd, b, nothing))
      × (repeats 6 cmd edt (p, b, nothing) ≡ apply cmd edt (at p 0 cmd) b)
process_sixth p cmd b edt lo hi new = (
  rw e1,
  rw (e1, e2),
  rw (e1, e2, e3),
  rw (e1, e2, e3, e4),
  rw (e1, e2, e3, e4, e5),
  rw (e1, e2, e3, e4, e5) (taking (at p 5 cmd) cmd b edt lo hi refl refl),
)
  where
    e1 : process p cmd true false b edt ≡ (at p 1 cmd, b, nothing)
    e1 = first p cmd b edt lo hi new

    e2 : process (at p 1 cmd) cmd true false b edt ≡ (at p 2 cmd, b, nothing)
    e2 = again 1 p cmd b edt lo hi (omega arith)

    e3 : process (at p 2 cmd) cmd true false b edt ≡ (at p 3 cmd, b, nothing)
    e3 = again 2 p cmd b edt lo hi (omega arith)

    e4 : process (at p 3 cmd) cmd true false b edt ≡ (at p 4 cmd, b, nothing)
    e4 = again 3 p cmd b edt lo hi (omega arith)

    e5 : process (at p 4 cmd) cmd true false b edt ≡ (at p 5 cmd, b, nothing)
    e5 = again 4 p cmd b edt lo hi (omega arith)

-- A beacon, command 1 to 5, plays its tone at once, whatever was counted before, and leaves the
-- borrowed state alone.
pub process_beacon :
    (p : CommandProcessor) (cmd : ℕ) (b : Borrowed) (edt : Bool)
    → 0 < cmd
    → cmd < 6
    → ((process p cmd true false b edt).1 ≡ b)
      × ((process p cmd true false b edt).2 ≡ play_tone cmd)
unfolding process counted apply
process_beacon p cmd b edt lo hi = ground arith

-- No command writes to the configuration but to the bytes of the two direction settings, and what
-- it writes there is zero or one.
pub apply_config :
    (cmd : ℕ) (edt : Bool) (p : CommandProcessor) (b : Borrowed) (j : ℕ)
    → length b.config ≡ 192
    → let c = (apply cmd edt p b).1.config in
      (length c ≡ 192) × (field c j ≢ field b.config j → ((j ≡ 17) ⊎ (j ≡ 18)) × (field c j ≤ 1))
unfolding apply
apply_config cmd edt p b j n = (grind (arith, length-set {0}), λ h. grind (arith, get_or-set))
