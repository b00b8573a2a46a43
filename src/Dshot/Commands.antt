-- ===== src/Dshot/Commands.antt =====
-- rm32/src/dshot_commands.rs: the command processor with its repetition counter, and the programming
-- sequence. `process` changes the configuration, the direction and the EDT arm flag of its caller,
-- which are a record here; a command takes effect through `apply`.
pub mod Repeats
pub mod Programming
use rm.Prelude.{
  ℕ, ◌+◌, Bool, true, false, not, ◌&&◌, ◌||◌, Option, none, some, ltb, leb, ◌==◌, ◌!=◌,
  if◌then◌else◌, u8, set,
}
use rm.Config.{Config, field, size}
use rm.Config.At

pub record CommandProcessor : Type 0 where
  pub command_count : ℕ
  pub last_command : ℕ
  pub programming_mode : ℕ
  pub position : ℕ
  pub new_byte : ℕ
  pub extended_telemetry : Bool
  pub send_edt_init : Bool
  pub send_edt_deinit : Bool

pub data CommandResult : Type 0 where
  nothing : CommandResult
  play_tone : ℕ → CommandResult
  send_esc_info : CommandResult
  save_settings : CommandResult
  programming_commit : ℕ → ℕ → CommandResult

-- What the processor borrows from its caller.
pub record Borrowed : Type 0 where
  pub config : Config
  pub forward : Bool
  pub edt_armed : Bool

unfoldable pub init : CommandProcessor
init = record {
  command_count = 0;
  last_command = 0;
  programming_mode = 0;
  position = 0;
  new_byte = 0;
  extended_telemetry = false;
  send_edt_init = false;
  send_edt_deinit = false;
}

unfoldable pub take_edt_init : CommandProcessor → CommandProcessor × Bool
take_edt_init p = (record p { send_edt_init = false }, p.send_edt_init)

unfoldable pub take_edt_deinit : CommandProcessor → CommandProcessor × Bool
take_edt_deinit p = (record p { send_edt_deinit = false }, p.send_edt_deinit)

-- The `match cmd` of `process`.
unfoldable pub apply :
    ℕ → Bool → CommandProcessor → Borrowed → CommandProcessor × Borrowed × CommandResult
apply cmd edt_arm_enable p b =
    if ltb 0 cmd && leb cmd 5
    then (p, b, play_tone (u8 cmd))
    else if cmd == 6
    then (p, b, send_esc_info)
    else if cmd == 7
    then (p, record b { config = set b.config At.dir_reversed 0; forward = true }, nothing)
    else if cmd == 8
    then (p, record b { config = set b.config At.dir_reversed 1; forward = false }, nothing)
    else if cmd == 9
    then (p, record b { config = set b.config At.bi_direction 0 }, nothing)
    else if cmd == 10
    then (p, record b { config = set b.config At.bi_direction 1 }, nothing)
    else if cmd == 12
    then (p, b, save_settings)
    else if cmd == 13
    then (
      record p { extended_telemetry = true; send_edt_init = true },
      record b { edt_armed = if edt_arm_enable then true else b.edt_armed },
      nothing,
    )
    else if cmd == 14
    then (record p { extended_telemetry = false; send_edt_deinit = true }, b, nothing)
    else if cmd == 20
    then (p, record b { forward = field b.config At.dir_reversed == 0 }, nothing)
    else if cmd == 21
    then (p, record b { forward = field b.config At.dir_reversed != 0 }, nothing)
    else if cmd == 36
    then (record p { programming_mode = 1 }, b, nothing)
    else (p, b, nothing)

-- The counter when a command arrives: a new command starts it, the beacons skip to its end.
unfoldable pub counted : CommandProcessor → ℕ → ℕ
counted p cmd =
    let start = if cmd != p.last_command then 0 else p.command_count in
    u8 ((if leb cmd 5 then 6 else start) + 1)

-- Where a command is another one, `last_command` is updated before the counter is looked at.
noted : CommandProcessor → ℕ → CommandProcessor
noted p cmd = record p { last_command = if cmd != p.last_command then u8 cmd else p.last_command }

store_last :
    ℕ → CommandProcessor × Borrowed × CommandResult → CommandProcessor × Borrowed × CommandResult
store_last cmd (p, b, r) = (record p { last_command = u8 cmd }, b, r)

unfoldable pub process :
    CommandProcessor
    → ℕ
    → Bool
    → Bool
    → Borrowed
    → Bool
    → CommandProcessor × Borrowed × CommandResult
unfolding noted store_last
process p cmd armed running b edt_arm_enable =
    if not armed || running
    then (p, b, nothing)
    else (let count = counted p cmd in
        let done =
          store_last cmd
            (apply cmd edt_arm_enable (record (noted p cmd) { command_count = 0 }) b) in
        if ltb count 6 then (record (noted p cmd) { command_count = count }, b, nothing) else done)

unfoldable pub process_programming :
    CommandProcessor → ℕ → Config → CommandProcessor × Config × Option CommandResult
process_programming p value config =
    if p.programming_mode == 1
    then (record p { position = value; programming_mode = 2 }, config, none)
    else if p.programming_mode == 2
    then (record p { new_byte = u8 value; programming_mode = 3 }, config, none)
    else if p.programming_mode == 3
    then (if value == 37
        then (if ltb p.position size
            then (
              record p { programming_mode = 0 },
              set config p.position p.new_byte,
              some (programming_commit p.position p.new_byte),
            )
            else (record p { programming_mode = 0 }, config, none))
        else (p, config, none))
    else (p, config, none)

unfoldable pub in_programming_mode : CommandProcessor → Bool
in_programming_mode p = ltb 0 p.programming_mode

unfoldable pub cancel_programming : CommandProcessor → CommandProcessor
cancel_programming p = record p { programming_mode = 0 }
