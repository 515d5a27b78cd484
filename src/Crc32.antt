-- ===== src/Crc32.antt =====
-- crc32.h: the table that the constructor fills, and `CalculateXORCRC`.
pub mod Serial
pub mod Range
use spadia.Common.{
  ℕ, zero, suc, ◌+◌, List, [], ◌∷◌, ◌==◌, if◌then◌else◌, ◌>>>◌, bit_and, bit_xor, get_or, Run, done,
  ◌>>=◌,
}
use spadia.Memory.{Buffer, load}

abbrev pub polynomial : ℕ
polynomial = 0xEDB88320

-- `if (c & 1) c = 0xEDB88320 ^ (c >> 1); else c >>= 1;`
unfoldable pub bit_round : ℕ → ℕ
bit_round c = if bit_and c 1 == 0 then c >>> 1 else bit_xor polynomial (c >>> 1)

-- The loop over `j`, with that many rounds left.
unfoldable pub bit_rounds : ℕ → ℕ → ℕ
bit_rounds zero c = c
bit_rounds (suc j) c = bit_rounds j (bit_round c)

-- The loop over `i` of the constructor, with `n` entries left.
unfoldable pub table_from : ℕ → ℕ → List ℕ
table_from zero i = []
table_from (suc n) i = bit_rounds 8 i ∷ table_from n (i + 1)

unfoldable pub table : List ℕ
table = table_from 256 0

-- `c = table[(c ^ data[i]) & 0xFF] ^ (c >> 8)`
unfoldable pub byte_round : ℕ → ℕ → ℕ
byte_round c x = bit_xor (get_or table (bit_and (bit_xor c x) 0xFF) 0) (c >>> 8)

-- The loop at index `i`, with `n` bytes left.
unfoldable pub crc_loop : Buffer → ℕ → ℕ → ℕ → Run ℕ
crc_loop b zero i c = done c
crc_loop b (suc n) i c = do x ← load b i; crc_loop b n (i + 1) (byte_round c x)

unfoldable pub calculate_xor_crc : Buffer → ℕ → Run ℕ
calculate_xor_crc b size = do
  let crc : ℕ = 0
  c ← crc_loop b size 0 (bit_xor crc 0xFFFFFFFF)
  let crc' = bit_xor c 0xFFFFFFFF
  done (bit_xor crc' 0x5354554e)
