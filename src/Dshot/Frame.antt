-- ===== src/Dshot/Frame.antt =====
-- rm32/src/dshot.rs: decoding of a 16-bit packet, and of a packet from the 32 captured edges. The
-- edges are a list of u32 timestamps; `(packet << 1) | bit` is a sum, as the shifted word is even.
pub mod Crc
pub mod Edges
use rm.Prelude.{
  ℕ, ◌+◌, ◌-◌, ◌*◌, ◌/◌, Bool, true, false, ◌||◌, List, [], ◌∷◌, ltb, leb, ◌==◌, ◌!=◌, not,
  if◌then◌else◌, u16, sub32, shr, bit_and, bit_xor, get_or,
}

pub data DshotFrame : Type 0 where
  throttle : ℕ → Bool → DshotFrame
  command : ℕ → Bool → DshotFrame
  bad_crc : DshotFrame
  invalid_timing : DshotFrame

-- `(packet >> 4 ^ packet >> 8 ^ packet >> 12) & 0xF`
unfoldable pub calc_crc : ℕ → ℕ
calc_crc packet = bit_and (bit_xor (bit_xor (shr packet 4) (shr packet 8)) (shr packet 12)) 15

-- The received checksum; the inverted one of bidirectional DShot is `!crc & 0xF`.
unfoldable pub check_crc : ℕ → Bool → ℕ
check_crc packet bidirectional =
    let crc = bit_and packet 15 in if bidirectional then bit_and (65535 - crc) 15 else crc

-- Values above 47 are throttle, 1 to 47 commands, and 0 is a stopped motor.
unfoldable pub frame_of : ℕ → Bool → DshotFrame
frame_of value telemetry =
    if ltb 47 value
    then throttle value telemetry
    else if ltb 0 value
    then command value telemetry
    else throttle 0 telemetry

unfoldable pub unpack : ℕ → Bool → DshotFrame
unfolding calc_crc check_crc frame_of
unpack packet bidirectional =
    if calc_crc packet != check_crc packet bidirectional
    then bad_crc
    else frame_of (shr packet 5) (bit_and packet 16 != 0)

-- The loop over the sixteen pulses; `half` is half the mean bit time.
unfoldable pub pulses : ℕ → ℕ → List ℕ → ℕ
pulses half packet [] = packet
pulses half packet (rise ∷ []) = packet
pulses half packet (rise ∷ (fall ∷ edges)) =
    pulses half (u16 (packet * 2) + (if ltb half (u16 (sub32 fall rise)) then 1 else 0)) edges

abbrev pub frame_time : List ℕ → ℕ
frame_time edges = u16 (sub32 (get_or edges 31 0) (get_or edges 0 0))

unfoldable pub decode_frame : List ℕ → ℕ → ℕ → Bool → DshotFrame
decode_frame edges frametime_low frametime_high bidirectional =
    let time = frame_time edges in
    if leb time frametime_low || leb frametime_high time
    then invalid_timing
    else unpack (pulses (shr time 5) 0 edges) bidirectional
