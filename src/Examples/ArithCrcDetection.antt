-- ===== src/Examples/ArithCrcDetection.antt =====
-- Runs of the theorems of Arith.Crc.Detection on concrete inputs.
use rm.Arith.Crc.{crc8_dvb_s2, get_crc8}
use rm.Arith.Crc.Detection.{crc8_detects}
use rm.Examples.Data.{read_byte, sent_byte}
use rm.Prelude.{[], arith, ◌++◌, ◌∷◌, ◌≡◌}

crc8_detects_example :
    (get_crc8 ((3 ∷ []) ++ sent_byte ∷ (250 ∷ [])) ≡ get_crc8 ((3 ∷ []) ++ read_byte ∷ (250 ∷ []))
      → sent_byte ≡ read_byte)
    × (crc8_dvb_s2 ((3 ∷ []) ++ sent_byte ∷ (250 ∷ []))
          ≡ crc8_dvb_s2 ((3 ∷ []) ++ read_byte ∷ (250 ∷ []))
        → sent_byte ≡ read_byte)
crc8_detects_example =
    crc8_detects (3 ∷ []) (250 ∷ []) sent_byte read_byte (omega arith) (omega arith) (omega arith)
      (omega arith)
