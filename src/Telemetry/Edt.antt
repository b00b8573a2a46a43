-- ===== src/Telemetry/Edt.antt =====
-- rm32/src/edt.rs: the scheduler that mixes extended frames into the DShot telemetry, and the
-- response of one telemetry slot. Sums stand for `|` of a type nibble and a payload byte.
pub mod Frames
use rm.Prelude.{
  ℕ, ◌+◌, ◌*◌, ◌/◌, ◌%◌, Bool, true, false, not, Option, none, some, List, ltb, ◌==◌, if◌then◌else◌,
  u16, min_of, length,
}
use rm.Prelude.Int.{ℤ, as_u8, as_u16}
use rm.Dshot.Gcr.{encode_gcr_frame, erpm_to_12bit}
use rm.Measure.Units.{unsigned_centiamps}
use rm.Shared.State.{SharedState, running, actual_current_of, degrees_celsius_of, e_com_time_of}

abbrev pub edt_temperature : ℕ
edt_temperature = 0x2

abbrev pub edt_voltage : ℕ
edt_voltage = 0x4

abbrev pub edt_current : ℕ
edt_current = 0x6

abbrev pub edt_init_frame : ℕ
edt_init_frame = 0xE00

abbrev pub edt_deinit_frame : ℕ
edt_deinit_frame = 0xEFF

pub record EdtScheduler : Type 0 where
  pub counter : ℕ
  pub last_sent_extended : Bool
  pub active : Bool
  pub send_init : Bool
  pub send_deinit : Bool

unfoldable pub request_init : EdtScheduler → EdtScheduler
request_init e = record e { send_init = true }

unfoldable pub request_deinit : EdtScheduler → EdtScheduler
request_deinit e = record e { send_deinit = true }

pub data EdtFrame : Type 0 where
  erpm : EdtFrame
  extended : ℕ → EdtFrame

-- The data frame that is due at a counter, if any.
unfoldable pub due_data : ℕ → ℤ → ℕ → ℤ → Option ℕ
due_data counter current voltage temperature =
    if counter % 40 == 0
    then some (edt_current * 256 + min_of (unsigned_centiamps current / 100) 255)
    else if counter % 200 == 100
    then some (edt_voltage * 256 + min_of (voltage / 25) 255)
    else if counter % 200 == 150
    then some (edt_temperature * 256 + as_u8 temperature)
    else none

unfoldable pub send_due : EdtScheduler → Option ℕ → EdtScheduler × EdtFrame
send_due e none = (e, erpm)
send_due e (some frame) = (record e { last_sent_extended = true }, extended frame)

-- The frame of an active scheduler that has no request, its counter already advanced.
unfoldable pub active_frame : EdtScheduler → Option ℕ → EdtScheduler × EdtFrame
unfolding send_due
active_frame e due =
    if e.counter % 512 == 256
    then (e, extended edt_init_frame)
    else if e.last_sent_extended
    then (record e { last_sent_extended = false }, erpm)
    else send_due e due

unfoldable pub next_frame : EdtScheduler → ℤ → ℕ → ℤ → EdtScheduler × EdtFrame
unfolding active_frame
next_frame e current voltage temperature =
    let counter = u16 (e.counter + 1) in
    if e.send_init
    then (record e { send_init = false; active = true }, extended edt_init_frame)
    else if e.send_deinit
    then (record e { send_deinit = false; active = false }, extended edt_deinit_frame)
    else if not e.active
    then (e, erpm)
    else active_frame (record e { counter = counter })
        (due_data counter current voltage temperature)

-- The 12-bit value of a frame, and what the callback `on_extended` sees.
unfoldable pub frame_value : SharedState → EdtFrame → ℕ
frame_value s (extended v) = v
frame_value s erpm = erpm_to_12bit (as_u16 (e_com_time_of s)) (running s)

abbrev pub seen : EdtFrame → Option ℕ
seen (extended v) = some v
seen erpm = none

unfoldable pub with_buffer :
    EdtScheduler → Option ℕ → Option (List ℕ) → Option (EdtScheduler × List ℕ × Option ℕ)
with_buffer e noticed none = none
with_buffer e noticed (some gcr) = some (e, gcr, noticed)

-- A buffer of fewer than 29 words is left alone; `none` would be a panic of the encoder.
unfoldable pub encode_response :
    EdtScheduler → SharedState → List ℕ → ℕ → Option (EdtScheduler × List ℕ × Option ℕ)
unfolding with_buffer
encode_response e s gcr gcr_shift =
    let (f, frame) = next_frame e (actual_current_of s) s.battery_voltage (degrees_celsius_of s) in
    if ltb (length gcr) 29
    then some (e, gcr, none)
    else with_buffer f (seen frame) (encode_gcr_frame (frame_value s frame) gcr 7 gcr_shift)
