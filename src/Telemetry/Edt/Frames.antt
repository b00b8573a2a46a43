-- ===== src/Telemetry/Edt/Frames.antt =====
-- What a receiver can tell apart, and that a response is always encoded.
use rm.Prelude.{
  ℕ, ◌+◌, ◌*◌, ◌/◌, ◌%◌, ◌≤◌, ◌<◌, ◌≡◌, ◌≢◌, refl, Bool, true, false, not, ◌&&◌, Option, none, some,
  ltb, ◌==◌, if◌then◌else◌, u16, min_of, arith,
}
use rm.Prelude.Int.{ℤ, pos, negsuc, as_u8}
use rm.Dshot.Gcr.{erpm_to_12bit}
use rm.Dshot.Gcr.Period.{erpm_to_12bit_fields}
use rm.Measure.Units.{unsigned_centiamps}
use rm.Telemetry.Edt.{
  EdtScheduler, EdtFrame, erpm, extended, due_data, send_due, active_frame, next_frame,
}

-- The type nibble of an extended frame has its low bit clear, and the frame is above the exact periods.
unfoldable pub IsTyped : EdtFrame → Type 0
IsTyped erpm = Unit {0}
IsTyped (extended v) = (v / 256 % 2 ≡ 0) × (512 ≤ v) × (v < 4096)

abbrev IsDue : Option ℕ → Type 0
IsDue none = Unit {0}
IsDue (some v) = (v / 256 % 2 ≡ 0) × (512 ≤ v) × (v < 4096)

as_u8-small : (v : ℤ) → as_u8 v < 256
unfolding as_u8
as_u8-small (pos n) = omega arith
as_u8-small (negsuc n) = omega arith

typed :
    (nibble payload : ℕ)
    → payload < 256
    → nibble % 2 ≡ 0
    → 2 ≤ nibble
    → nibble < 16
    → IsDue (some (nibble * 256 + payload))
typed nibble payload small even low high = omega arith

if-IsDue : (b : Bool) (x y : Option ℕ) → IsDue x → IsDue y → IsDue (if b then x else y)
if-IsDue true x y hx hy = hx
if-IsDue false x y hx hy = hy

byte : (n : ℕ) → min_of n 255 < 256
byte n = ground arith

due_data-IsDue :
    (counter : ℕ) (current : ℤ) (voltage : ℕ) (temperature : ℤ)
    → IsDue (due_data counter current voltage temperature)
unfolding due_data
due_data-IsDue counter current voltage temperature =
    if-IsDue (counter % 40 == 0) _ _
      (typed 6 _ (byte (unsigned_centiamps current / 100)) refl (omega arith) (omega arith))
      (if-IsDue (counter % 200 == 100) _ _
        (typed 4 _ (byte (voltage / 25)) refl (omega arith) (omega arith))
        (if-IsDue (counter % 200 == 150) _ none
          (typed 2 _ (as_u8-small temperature) refl (omega arith) (omega arith)) tt))

-- What holds of both branches holds of the choice.
either :
    (P : EdtScheduler × EdtFrame → Type 0) (b : Bool) (x y : EdtScheduler × EdtFrame)
    → P x
    → P y
    → P (if b then x else y)
either P true x y hx hy = hx
either P false x y hx hy = hy

abbrev TypedResult : EdtScheduler × EdtFrame → Type 0
TypedResult r = IsTyped r.1

send_due-IsTyped : (e : EdtScheduler) (due : Option ℕ) → IsDue due → IsTyped (send_due e due).1
unfolding send_due IsTyped
send_due-IsTyped e none h = tt
send_due-IsTyped e (some v) h = h

active_frame-IsTyped :
    (e : EdtScheduler) (due : Option ℕ) → IsDue due → IsTyped (active_frame e due).1
unfolding active_frame IsTyped
active_frame-IsTyped e due h =
    either TypedResult (e.counter % 512 == 256) _ _ (refl, omega arith, omega arith)
      (either TypedResult e.last_sent_extended _ (send_due e due) tt (send_due-IsTyped e due h))

next_frame-IsTyped :
    (e : EdtScheduler) (current : ℤ) (voltage : ℕ) (temperature : ℤ)
    → IsTyped (next_frame e current voltage temperature).1
unfolding next_frame IsTyped
next_frame-IsTyped e current voltage temperature =
    either TypedResult e.send_init _ _ (refl, omega arith, omega arith)
      (either TypedResult e.send_deinit _ _ (refl, omega arith, omega arith)
        (either TypedResult (not e.active) (e, erpm) _ tt
          (active_frame-IsTyped (record e { counter = u16 (e.counter + 1) }) _
            (due_data-IsDue (u16 (e.counter + 1)) current voltage temperature))))

unfoldable pub IsApart : EdtFrame → ℕ → Type 0
IsApart erpm w = Unit {0}
IsApart (extended v) w = (v < 4096) × (v ≢ w)

erpm_to_12bit-IsApart :
    (f : EdtFrame) (com_time : ℕ) (running : Bool)
    → com_time < 65536
    → IsTyped f
    → IsApart f (erpm_to_12bit com_time running)
unfolding IsApart IsTyped
erpm_to_12bit-IsApart erpm com_time running h t = tt
erpm_to_12bit-IsApart (extended v) com_time running h (even, large, small) =
    let (bits, value, exact, full) = erpm_to_12bit_fields com_time running h in
    (small, ground arith)

-- An extended frame has twelve bits and is the form of no period whatever: a receiver that knows of
-- extended telemetry tells every extended frame from every speed report, for all measurements, all
-- states of the scheduler, and a running or a stopped motor.
pub next_frame-IsApart :
    (e : EdtScheduler) (current : ℤ) (voltage : ℕ) (temperature : ℤ) (com_time : ℕ) (running : Bool)
    → com_time < 65536
    → IsApart (next_frame e current voltage temperature).1 (erpm_to_12bit com_time running)
next_frame-IsApart e current voltage temperature com_time running h =
    erpm_to_12bit-IsApart (next_frame e current voltage temperature).1 com_time running h
      (next_frame-IsTyped e current voltage temperature)

-- A frame with a measurement.
unfoldable pub is_data : EdtFrame → Bool
is_data erpm = false
is_data (extended v) = ltb v 0xE00

abbrev Marks : EdtScheduler × EdtFrame → Type 0
Marks r = is_data r.1 ≡ true → r.0.last_sent_extended ≡ true

abbrev Silent : EdtScheduler × EdtFrame → Type 0
Silent r = is_data r.1 ≡ false

no_data : (b : Bool) → false ≡ true → b ≡ true
no_data b h = ground arith

send_due-Marks : (e : EdtScheduler) (due : Option ℕ) → Marks (send_due e due)
unfolding send_due is_data
send_due-Marks e none h = no_data e.last_sent_extended h
send_due-Marks e (some v) h = refl

next_frame-Marks :
    (e : EdtScheduler) (current : ℤ) (voltage : ℕ) (temperature : ℤ)
    → Marks (next_frame e current voltage temperature)
unfolding next_frame active_frame is_data
next_frame-Marks e current voltage temperature =
    let due = due_data (u16 (e.counter + 1)) current voltage temperature in
    let f = record e { counter = u16 (e.counter + 1) } in
    either Marks e.send_init _ _ (no_data _) (
      either Marks e.send_deinit _ _ (no_data _) (
        either Marks (not e.active) (e, erpm) _ (no_data _)
          (either Marks (f.counter % 512 == 256) _ _ (no_data _) (
            either Marks f.last_sent_extended _ (send_due f due) (no_data _)
              (send_due-Marks f due)))))

next_frame-Silent :
    (e : EdtScheduler) (current : ℤ) (voltage : ℕ) (temperature : ℤ)
    → e.last_sent_extended ≡ true
    → Silent (next_frame e current voltage temperature)
unfolding next_frame active_frame is_data
next_frame-Silent e current voltage temperature h = rw h (
    either Silent e.send_init _ _ refl (
      either Silent e.send_deinit _ _ refl (
        either Silent (not e.active) (record e { last_sent_extended = true }, erpm) _ refl
          (either Silent (u16 (e.counter + 1) % 512 == 256) _ _ refl refl))))

apart_by : (a b : Bool) → (a ≡ true → b ≡ false) → (a && b) ≡ false
apart_by true b h = h refl
apart_by false b h = refl

-- Two frames with a measurement never follow each other: between them the scheduler sends at least
-- one speed report, or one of the frames that turn the extended telemetry on or off.
pub next_frame_alternates :
    (e : EdtScheduler) (current current' : ℤ) (voltage voltage' : ℕ) (temperature temperature' : ℤ)
    → (is_data (next_frame e current voltage temperature).1
        && is_data
            (next_frame
              (next_frame e current voltage temperature).0
              current'
              voltage'
              temperature').1)
      ≡ false
next_frame_alternates e current current' voltage voltage' temperature temperature' =
    apart_by (is_data (next_frame e current voltage temperature).1) _ (λ h.
      next_frame-Silent (next_frame e current voltage temperature).0 current' voltage' temperature'
        (next_frame-Marks e current voltage temperature h))
