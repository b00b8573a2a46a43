-- ===== src/Examples/DshotGcrWord.antt =====
-- Runs of the theorems of Dshot.Gcr.Word on concrete inputs.
use rm.Dshot.Gcr.{gcr_bits}
use rm.Dshot.Gcr.Word.{read_word, read_word-gcr_bits, zeros}
use rm.Prelude.{arith, some, ◌<◌, ◌≡◌, ◌≤◌}

read_word-gcr_bits_example :
    (read_word (gcr_bits 1234) ≡ some 1234)
    × (gcr_bits 1234 < 1048576)
    × (zeros 20 0 (gcr_bits 1234) ≤ 2)
read_word-gcr_bits_example = read_word-gcr_bits 1234 (omega arith)
