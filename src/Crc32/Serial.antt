-- ===== src/Crc32/Serial.antt =====
-- The table-driven CRC against the definition of CRC-32 as a shift register fed bit by bit.
use native.Mathlib.Nat.{pow-suc}
use spadia.Common.{
  ℕ, zero, suc, ◌+◌, ◌*◌, ◌/◌, ◌%◌, ◌^◌, ◌≤◌, ◌<◌, ◌≡◌, refl, ap, ◌∙◌, List, [], ◌∷◌, arith, ◌==◌,
  if◌then◌else◌, bit_xor, get_or, done, lt→ltb,
}
use spadia.Common.Bits.{
  bit_xor-half, bit_xor-parity, bit_xor_assoc, bit_and_mask, bit_xor-zero, bit_xor-shift,
  bit_xor_split,
}
use spadia.Memory.{Buffer, IsBytes, load, slice}
use spadia.Crc32.{
  polynomial, bit_round, bit_rounds, table_from, table, byte_round, crc_loop, calculate_xor_crc,
}

-- The register takes one message bit.
pub feed_bit : ℕ → ℕ → ℕ
feed_bit c m = if (c + m) % 2 == 0 then c / 2 else bit_xor polynomial (c / 2)

-- The `k` low bits of `x`, lowest first.
pub feed_bits : ℕ → ℕ → ℕ → ℕ
feed_bits zero c x = c
feed_bits (suc k) c x = feed_bits k (feed_bit c (x % 2)) (x / 2)

pub feed : ℕ → List ℕ → ℕ
feed c [] = c
feed c (x ∷ xs) = feed (feed_bits 8 c x) xs

-- The STUN fingerprint: CRC-32 (register preset to ones and inverted at the end), then `^ "STUN"`.
pub fingerprint : List ℕ → ℕ
fingerprint xs = bit_xor (bit_xor (feed 0xFFFFFFFF xs) 0xFFFFFFFF) 0x5354554e

-- One round on a register that a message has been added to.
bit_round-xor : (c x : ℕ) → bit_round (bit_xor c x) ≡ bit_xor (feed_bit c (x % 2)) (x / 2)
unfolding bit_round feed_bit
bit_round-xor c x = ground (
  arith,
  bit_and_mask 1 (bit_xor c x),
  bit_xor-half c x,
  bit_xor-parity c x,
  bit_xor_assoc polynomial (c / 2) (x / 2),
)

bit_rounds-xor : (k c x : ℕ) → x < 2 ^ k → bit_rounds k (bit_xor c x) ≡ feed_bits k c x
unfolding bit_rounds feed_bits
bit_rounds-xor zero c zero h = bit_xor-zero c
bit_rounds-xor zero c (suc x) h = absurd (omega arith)
bit_rounds-xor (suc k) c x h =
    ap (bit_rounds k) (bit_round-xor c x)
    ∙ bit_rounds-xor k (feed_bit c (x % 2)) (x / 2) (omega (arith, pow-suc 2 k))

feed_bit-zero : (c : ℕ) → feed_bit c 0 ≡ bit_round c
unfolding bit_round feed_bit
feed_bit-zero c = ground (arith, bit_and_mask 1 c)

-- A part of the register above the `k` bits that are used up only shifts down.
bit_rounds-shift : (k c q : ℕ) → bit_rounds k (bit_xor c (q * 2 ^ k)) ≡ bit_xor (bit_rounds k c) q
unfolding bit_rounds
bit_rounds-shift zero c q = ap (bit_xor c) (omega arith)
bit_rounds-shift (suc k) c q = ap (bit_rounds k) one ∙ bit_rounds-shift k (bit_round c) q
  where
    doubled : q * 2 ^ suc k ≡ 2 * (q * 2 ^ k)
    doubled = omega (arith, ap (λ (t : ℕ). q * t) (pow-suc 2 k))

    one : bit_round (bit_xor c (q * 2 ^ suc k)) ≡ bit_xor (bit_round c) (q * 2 ^ k)
    one = ground (arith, doubled, bit_round-xor c (q * 2 ^ suc k), feed_bit-zero c)

get_or-table_from : (n i j : ℕ) → j < n → get_or (table_from n i) j 0 ≡ bit_rounds 8 (i + j)
unfolding table_from
get_or-table_from zero i j h = absurd (omega arith)
get_or-table_from (suc n) i zero h = ap (bit_rounds 8) (omega arith)
get_or-table_from (suc n) i (suc j) h =
    get_or-table_from n (i + 1) j (omega arith) ∙ ap (bit_rounds 8) (omega arith)

get_or-table : (j : ℕ) → j < 256 → get_or table j 0 ≡ bit_rounds 8 j
unfolding table
get_or-table j h = get_or-table_from 256 0 j h ∙ ap (bit_rounds 8) (omega arith)

-- One look-up does the work of eight rounds.
byte_round-feed_bits : (c x : ℕ) → x < 256 → byte_round c x ≡ feed_bits 8 c x
unfolding byte_round
byte_round-feed_bits c x h = ground (
  arith,
  bit_and_mask 8 (bit_xor c x),
  get_or-table (bit_xor c x % 256) (omega arith),
  bit_xor-shift 8 c x,
  bit_xor-zero (c / 256),
  bit_rounds-shift 8 (bit_xor c x % 256) (bit_xor c x / 256),
  bit_xor_split 8 (bit_xor c x),
  bit_rounds-xor 8 c x,
)

-- The loop feeds the bytes that it loads.
crc_loop-feed :
    (b : Buffer) (n i c : ℕ)
    → IsBytes b
    → i + n ≤ b.size
    → (xs : List ℕ) × (slice b i n ≡ done xs) × (crc_loop b n i c ≡ done (feed c xs))
unfolding crc_loop feed slice load
crc_loop-feed b zero i c bytes h = ([], refl, refl)
crc_loop-feed b (suc n) i c bytes h =
    let (xs, sliced, looped) =
      crc_loop-feed b n (i + 1) (byte_round c (b.bytes i)) bytes (omega arith) in
    (
      b.bytes i ∷ xs,
      rw (lt→ltb i b.size (omega arith), sliced),
      rw (lt→ltb i b.size (omega arith), looped, byte_round-feed_bits c (b.bytes i) (bytes i)),
    )

-- Over any `size` bytes of a block that holds that many, `CalculateXORCRC` reads nothing outside
-- the block and returns the bit-serial CRC-32 of those bytes, xored with the STUN constant.
pub calculate_xor_crc-fingerprint :
    (b : Buffer) (size : ℕ)
    → IsBytes b
    → size ≤ b.size
    → (xs : List ℕ) × (slice b 0 size ≡ done xs)
      × (calculate_xor_crc b size ≡ done (fingerprint xs))
unfolding calculate_xor_crc fingerprint
calculate_xor_crc-fingerprint b size bytes h =
    let (xs, sliced, looped) = crc_loop-feed b size 0 0xFFFFFFFF bytes (omega arith) in
    (xs, sliced, rw looped)
