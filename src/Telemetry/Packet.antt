-- ===== src/Telemetry/Packet.antt =====
-- rm32/src/telemetry.rs: the ten bytes of a telemetry packet and the information packet.
use rm.Prelude.{
  ℕ, ◌+◌, ◌*◌, ◌/◌, Option, none, some, ltb, if◌then◌else◌, ◌<◌, ◌≡◌, refl, List, [], ◌∷◌, ◌++◌, u8,
  get_or, take, arith, length,
}
use rm.Prelude.Int.{ℤ, as_u8}
use rm.Arith.Crc.{get_crc8}

abbrev packet_body : ℤ → ℕ → ℕ → ℕ → ℕ → List ℕ
packet_body temp voltage current consumption e_rpm =
    as_u8 temp
    ∷ u8 (voltage / 256)
    ∷ u8 voltage
    ∷ u8 (current / 256)
    ∷ u8 current
    ∷ u8 (consumption / 256)
    ∷ u8 consumption
    ∷ u8 (e_rpm / 256)
    ∷ u8 e_rpm
    ∷ []

unfoldable pub make_telem_package : ℤ → ℕ → ℕ → ℕ → ℕ → List ℕ
make_telem_package temp voltage current consumption e_rpm =
    let body = packet_body temp voltage current consumption e_rpm in body ++ (get_crc8 body ∷ [])

-- `none` is the panic of a configuration of fewer than 48 bytes.
unfoldable pub make_info_packet : List ℕ → Option (List ℕ)
make_info_packet eeprom =
    let body = take 48 eeprom in
    if ltb (length eeprom) 48 then none else some (body ++ (get_crc8 body ∷ []))

-- A big-endian word of a packet.
abbrev pub word_at : List ℕ → ℕ → ℕ
word_at packet i = get_or packet i 0 * 256 + get_or packet (i + 1) 0

-- A receiver reads each word back from its two bytes, and the last byte is the checksum of the nine
-- bytes before it.
pub make_telem_package-read :
    (temp : ℤ) (voltage current consumption e_rpm : ℕ)
    → voltage < 65536
    → current < 65536
    → consumption < 65536
    → e_rpm < 65536
    → (word_at (make_telem_package temp voltage current consumption e_rpm) 1 ≡ voltage)
      × (word_at (make_telem_package temp voltage current consumption e_rpm) 3 ≡ current)
      × (word_at (make_telem_package temp voltage current consumption e_rpm) 5 ≡ consumption)
      × (word_at (make_telem_package temp voltage current consumption e_rpm) 7 ≡ e_rpm)
      × (get_or (make_telem_package temp voltage current consumption e_rpm) 9 0
          ≡ get_crc8 (take 9 (make_telem_package temp voltage current consumption e_rpm)))
unfolding make_telem_package
make_telem_package-read temp voltage current consumption e_rpm hv hc hq he =
    (omega arith, omega arith, omega arith, omega arith, refl)
