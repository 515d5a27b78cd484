-- ===== src/Crc32/Range.antt =====
-- `CalculateXORCRC`, crc32.h: the range of its result, and the bytes that it looks at.
use spadia.Common.{
  ℕ, zero, suc, ◌+◌, ◌^◌, ◌≤◌, ◌<◌, ◌≡◌, refl, Bool, true, List, [], ◌∷◌, ltb, ◌&&◌, get_or, done,
  bit_xor, bit_and, arith,
}
use spadia.Common.Bits.{bit_xor-lt}
use spadia.Memory.{Buffer}
use spadia.Memory.Access.{load-inside}
use spadia.Crc32.{table, table_from, bit_rounds, bit_round, byte_round, crc_loop, calculate_xor_crc}

abbrev are_below : List ℕ → Bool
are_below [] = true
are_below (x ∷ xs) = ltb x (2 ^ 32) && are_below xs

get_or-lt : (xs : List ℕ) (i : ℕ) → are_below xs ≡ true → get_or xs i 0 < 2 ^ 32
get_or-lt [] i h = omega arith
get_or-lt (x ∷ xs) zero h = ground (arith, h)
get_or-lt (x ∷ xs) (suc i) h = ground (arith, get_or-lt xs i)

table-below : are_below table ≡ true
unfolding table table_from bit_rounds bit_round
table-below = refl

byte_round-lt : (c x : ℕ) → c < 2 ^ 32 → byte_round c x < 2 ^ 32
unfolding byte_round
byte_round-lt c x h =
    bit_xor-lt 32 _ _ (get_or-lt table (bit_and (bit_xor c x) 0xFF) table-below) (omega arith)

-- Two blocks that agree on the bytes covered have one CRC.
crc_loop-same :
    (b b' : Buffer) (n i c : ℕ)
    → i + n ≤ b.size
    → i + n ≤ b'.size
    → ((j : ℕ) → j < i + n → b.bytes j ≡ b'.bytes j)
    → c < 2 ^ 32
    → (v : ℕ) × (crc_loop b n i c ≡ done v) × (crc_loop b' n i c ≡ done v) × (v < 2 ^ 32)
unfolding crc_loop
crc_loop-same b b' zero i c h h' same small = (c, refl, refl, small)
crc_loop-same b b' (suc n) i c h h' same small =
    let (v, e, e', fits) =
      crc_loop-same b b' n (i + 1) (byte_round c (b'.bytes i)) (omega arith) (omega arith)
        (λ j below. same j (omega arith)) (byte_round-lt c (b'.bytes i) small) in
    (
      v,
      rw (load-inside b i (omega arith), same i (omega arith), e),
      rw (load-inside b' i (omega arith), e'),
      fits,
    )

pub calculate_xor_crc-same :
    (b b' : Buffer) (size : ℕ)
    → size ≤ b.size
    → size ≤ b'.size
    → ((j : ℕ) → j < size → b.bytes j ≡ b'.bytes j)
    → (v : ℕ) × (calculate_xor_crc b size ≡ done v)
      × (calculate_xor_crc b' size ≡ done v)
      × (v < 2 ^ 32)
unfolding calculate_xor_crc
calculate_xor_crc-same b b' size h h' same =
    let (v, e, e', fits) =
      crc_loop-same b b' size 0 0xFFFFFFFF (omega arith) (omega arith)
        (λ j below. same j (omega arith)) (omega arith) in
    (
      bit_xor (bit_xor v 0xFFFFFFFF) 0x5354554e,
      rw e,
      rw e',
      bit_xor-lt 32 _ _ (bit_xor-lt 32 _ _ fits (omega arith)) (omega arith),
    )
