-- ===== src/Memory.antt =====
-- Byte buffers as the code sees them (a pointer with the block that it points into), and the calls
-- of byte_io.h, which is another project's library and stands here as a parameter.
pub mod Access
pub mod Endian
use spadia.Common.{
  ℤ, pos, negsuc, ℕ, zero, suc, ◌+◌, ◌-◌, ◌*◌, ◌/◌, ◌%◌, ◌^◌, ◌≤◌, ◌<◌, ◌≡◌, refl, Bool, true,
  false, ◌&&◌, List, [], ◌∷◌, arith, ltb, leb, ◌==◌, if◌then◌else◌, Run, done, fault, out_of_bounds,
  ◌>>=◌,
}

-- A block of `size` bytes; `bytes` is read at offsets below `size` only.
pub record Buffer : Type 0 where
  pub size : ℕ
  pub bytes : ℕ → ℕ

abbrev pub IsBytes : Buffer → Type 0
IsBytes b = (i : ℕ) → b.bytes i < 256

-- `webrtc::ByteReader<T>::ReadBigEndian` on the bytes at the pointer, first byte first, and
-- `webrtc::ByteWriter<T>::WriteBigEndian` as the bytes that it stores, for the unsigned types and
-- a `short` that is read.
pub record ByteIo : Type 0 where
  pub read_u8 : ℕ → ℕ
  pub read_u16 : ℕ → ℕ → ℕ
  pub read_u32 : ℕ → ℕ → ℕ → ℕ → ℕ
  pub read_s16 : ℕ → ℕ → ℤ
  pub write_u8 : ℕ → ℕ
  pub write_u16 : ℕ → ℕ × ℕ
  pub write_u32 : ℕ → ℕ × ℕ × ℕ × ℕ

-- The number that a `short` stands for, by its 16 bits.
abbrev pub signed16 : ℕ → ℤ
signed16 v = if ltb v (2 ^ 15) then pos v else negsuc (2 ^ 16 - 1 - v)

-- What the header of byte_io.h documents: big endian byte order, and two's complement for signed integers.
pub record IsBigEndian (io : ByteIo) : Type 0 where
  pub read_u8_lem : (a : ℕ) → a < 256 → io.read_u8 a ≡ a
  pub read_u16_lem : (a b : ℕ) → a < 256 → b < 256 → io.read_u16 a b ≡ a * 256 + b
  pub read_u32_lem :
      (a b c d : ℕ)
      → a < 256
      → b < 256
      → c < 256
      → d < 256
      → io.read_u32 a b c d ≡ ((a * 256 + b) * 256 + c) * 256 + d
  pub read_s16_lem : (a b : ℕ) → a < 256 → b < 256 → io.read_s16 a b ≡ signed16 (a * 256 + b)
  pub write_u8_lem : (v : ℕ) → v < 2 ^ 8 → io.write_u8 v ≡ v
  pub write_u16_lem : (v : ℕ) → v < 2 ^ 16 → io.write_u16 v ≡ (v / 256, v % 256)
  pub write_u32_lem :
      (v : ℕ)
      → v < 2 ^ 32
      → io.write_u32 v ≡ (v / 2 ^ 24, v / 2 ^ 16 % 256, v / 2 ^ 8 % 256, v % 256)

-- `malloc(n)`; `junk` is what the block holds.
unfoldable pub malloc : (ℕ → ℕ) → ℕ → Buffer
malloc junk n = record { size = n; bytes = junk }

-- `data[i]`
unfoldable pub load : Buffer → ℕ → Run ℕ
load b i = if ltb i b.size then done (b.bytes i) else fault out_of_bounds

-- `data[i] = v`
unfoldable pub store : Buffer → ℕ → ℕ → Run Buffer
store b i v =
    if ltb i b.size
    then done (record b { bytes = λ j. if j == i then v else b.bytes j })
    else fault out_of_bounds

-- `memcpy(to + i, from + k, n)` between two blocks.
unfoldable pub copy : Buffer → ℕ → Buffer → ℕ → ℕ → Run Buffer
copy to i from k n =
    if leb (i + n) to.size && leb (k + n) from.size
    then done (record to {
      bytes = λ j. if leb i j && ltb j (i + n) then from.bytes (k + j - i) else to.bytes j;
    })
    else fault out_of_bounds

-- `memcpy(data + i, bytes, n)` of the `n` bytes of a list.
unfoldable pub store_list : Buffer → ℕ → List ℕ → Run Buffer
unfolding store
store_list b i [] = done b
store_list b i (x ∷ xs) = store b i x >>= λ b'. store_list b' (i + 1) xs

-- The bytes `data[i .. i + n)`.
unfoldable pub slice : Buffer → ℕ → ℕ → Run (List ℕ)
slice b i zero = done []
slice b i (suc n) = do x ← load b i; xs ← slice b (i + 1) n; done (x ∷ xs)

module _ (io : ByteIo) where
  unfoldable pub read8 : Buffer → ℕ → Run ℕ
  unfolding load
  read8 b i = do x ← load b i; done (io.read_u8 x)

  unfoldable pub read16 : Buffer → ℕ → Run ℕ
  unfolding load
  read16 b i = do x ← load b i; y ← load b (i + 1); done (io.read_u16 x y)

  unfoldable pub read_short : Buffer → ℕ → Run ℤ
  unfolding load
  read_short b i = do x ← load b i; y ← load b (i + 1); done (io.read_s16 x y)

  unfoldable pub read32 : Buffer → ℕ → Run ℕ
  unfolding load
  read32 b i = do
    x ← load b i
    y ← load b (i + 1)
    z ← load b (i + 2)
    w ← load b (i + 3)
    done (io.read_u32 x y z w)

  unfoldable pub write8 : Buffer → ℕ → ℕ → Run Buffer
  unfolding store
  write8 b i v = store b i (io.write_u8 v)

  unfoldable pub write16 : Buffer → ℕ → ℕ → Run Buffer
  unfolding store
  write16 b i v = do let (x, y) = io.write_u16 v; b1 ← store b i x; store b1 (i + 1) y

  unfoldable pub write32 : Buffer → ℕ → ℕ → Run Buffer
  unfolding store
  write32 b i v = do
    let (x, y, z, w) = io.write_u32 v
    b1 ← store b i x
    b2 ← store b1 (i + 1) y
    b3 ← store b2 (i + 2) z
    store b3 (i + 3) w
