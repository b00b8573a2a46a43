-- ===== src/Dshot/Frame/Crc.antt =====
-- `unpack` of rm32/src/dshot.rs accepts exactly the packets that a DShot sender forms.
use rm.Prelude.{
  ℕ, ◌+◌, ◌-◌, ◌*◌, ◌/◌, ◌%◌, ◌<◌, ◌≡◌, ◌≢◌, arith, Bool, true, false, ltb, ◌==◌, if◌then◌else◌,
  bit_and, bit_xor,
}
use rm.Prelude.Bits.{bit_and_nibble, bit_and_sixteen}
use rm.Dshot.Frame.{
  throttle, command, bad_crc, invalid_timing, calc_crc, check_crc, frame_of, unpack,
}

-- The sender: the 11-bit value, the telemetry bit and the checksum of these twelve bits, inverted
-- for bidirectional DShot.
pub payload : ℕ → Bool → ℕ
payload value telemetry = value * 2 + (if telemetry then 1 else 0)

pub nibbles : ℕ → ℕ
nibbles twelve = bit_xor (bit_xor twelve (twelve / 16)) (twelve / 256) % 16

pub packet : ℕ → Bool → Bool → ℕ
packet value telemetry bidirectional =
    let crc = nibbles (payload value telemetry) in
    payload value telemetry * 16 + (if bidirectional then 15 - crc else crc)

calc_crc-nibbles : (p : ℕ) → calc_crc p ≡ nibbles (p / 16)
unfolding calc_crc nibbles
calc_crc-nibbles p =
    let a : p / 256 ≡ p / 16 / 16 = omega arith in
    let b : p / 4096 ≡ p / 16 / 256 = omega arith in rw (bit_and_nibble, a, b)

check_crc-mod : (p : ℕ) (b : Bool) → check_crc p b ≡ (if b then 15 - p % 16 else p % 16)
unfolding check_crc
check_crc-mod p true = omega (arith, bit_and_nibble p, bit_and_nibble (65535 - bit_and p 15))
check_crc-mod p false = bit_and_nibble p

unpack_cases :
    (p : ℕ) (b : Bool)
    → unpack p b ≡ (
        if nibbles (p / 16) == (if b then 15 - p % 16 else p % 16)
        then frame_of (p / 32) (p / 16 % 2 == 1)
        else bad_crc)
unfolding unpack
unpack_cases p b = rw (calc_crc-nibbles p, check_crc-mod p b, bit_and_sixteen p) (ground arith)

nibbles-lt : (x : ℕ) → nibbles x < 16
unfolding nibbles
nibbles-lt x = omega arith

packet_parts :
    (v : ℕ) (t b : Bool)
    → (packet v t b / 16 ≡ payload v t)
      × (packet v t b / 32 ≡ v)
      × (packet v t b % 16 ≡ (if b then 15 - nibbles (payload v t) else nibbles (payload v t)))
      × ((payload v t % 2 == 1) ≡ t)
unfolding packet payload
packet_parts v true true = ground (arith, nibbles-lt (v * 2 + 1))
packet_parts v true false = ground (arith, nibbles-lt (v * 2 + 1))
packet_parts v false true = ground (arith, nibbles-lt (v * 2 + 0))
packet_parts v false false = ground (arith, nibbles-lt (v * 2 + 0))

-- A packet that a sender forms for an 11-bit value and a telemetry flag, in either polarity of the
-- checksum, is unpacked to that value and flag: a throttle above 47, a command from 1 to 47, and
-- throttle zero for zero.
pub unpack-packet :
    (v : ℕ) (t b : Bool)
    → (unpack (packet v t b) b ≡ frame_of v t)
      × (frame_of v t
          ≡ (if v == 0 then throttle 0 t else if ltb v 48 then command v t else throttle v t))
unfolding frame_of
unpack-packet v t b = (value, ground arith)
  where
    value : unpack (packet v t b) b ≡ frame_of v t
    value =
        let (a, c, d, e) = packet_parts v t b in
        rw (unpack_cases (packet v t b) b, a, c, d, e) (ground (arith, nibbles-lt (payload v t)))

-- Only packets that a sender forms are accepted: a packet of 16 bits that is not refused is the one
-- that is formed for the value and the flag in its upper twelve bits. The timing error is the edge
-- decoder's alone.
pub unpack_sound :
    (p : ℕ) (b : Bool)
    → (unpack p b ≢ bad_crc → p ≡ packet (p / 32) (p / 16 % 2 == 1) b)
      × (unpack p b ≢ invalid_timing)
unfolding frame_of packet payload
unpack_sound p b = (
  λ h. ground (arith, unpack_cases p b, upper p, nibbles-lt (p / 16)),
  λ e. ground (arith, unpack_cases p b),
)
  where
    upper : (q : ℕ) → q / 32 * 2 + (if q / 16 % 2 == 1 then 1 else 0) ≡ q / 16
    upper q = ground arith
