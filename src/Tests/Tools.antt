-- ===== src/Tests/Tools.antt =====
-- The CRC at a concrete input.
use spadia.Common.{ℕ, ◌≡◌, refl, List, [], ◌∷◌, arith, done}
use spadia.Memory.{slice}
use spadia.Crc32.{calculate_xor_crc}
use spadia.Crc32.Serial.{fingerprint, calculate_xor_crc-fingerprint}
use spadia.Tests.{block_of, block_of-IsBytes}

-- "123456789"
abbrev check_text : List ℕ
check_text = 49 ∷ 50 ∷ 51 ∷ 52 ∷ 53 ∷ 54 ∷ 55 ∷ 56 ∷ 57 ∷ []

crc_example :
    (xs : List ℕ) × (slice (block_of check_text) 0 9 ≡ done xs)
    × (calculate_xor_crc (block_of check_text) 9 ≡ done (fingerprint xs))
crc_example =
    calculate_xor_crc-fingerprint (block_of check_text) 9 (block_of-IsBytes check_text refl)
      (omega arith)
