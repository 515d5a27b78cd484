-- ===== src/Memory/Endian.antt =====
-- Reading back what the big endian writers store.
use spadia.Common.{ℕ, ◌+◌, ◌*◌, ◌/◌, ◌%◌, ◌^◌, ◌<◌, ◌≡◌, arith}
use spadia.Memory.{ByteIo, IsBigEndian}

module _ (io : ByteIo) (big : IsBigEndian io) (v : ℕ) where
  pub write_u16_parts :
      v < 2 ^ 16
      → let (x, y) = io.write_u16 v in
        (x * 256 + y ≡ v) × (x < 256) × (y < 256) × (x ≡ v / 256) × (y ≡ v % 256)
  write_u16_parts h = rw (big.write_u16_lem v h) (omega arith)

  pub write_u32_parts :
      v < 2 ^ 32
      → let (x, y, z, w) = io.write_u32 v in
        (((x * 256 + y) * 256 + z) * 256 + w ≡ v)
        × (x < 256)
        × (y < 256)
        × (z < 256)
        × (w < 256)
        × (x ≡ v / 2 ^ 24)
  write_u32_parts h = rw (big.write_u32_lem v h) (omega arith)

  pub read_u16-write_u16 : v < 2 ^ 16 → let (x, y) = io.write_u16 v in io.read_u16 x y ≡ v
  read_u16-write_u16 h =
      rw (big.write_u16_lem v h, big.read_u16_lem (v / 256) (v % 256) (omega arith) (omega arith))
        (omega arith)

  pub read_u32-write_u32 : v < 2 ^ 32 → let (x, y, z, w) = io.write_u32 v in io.read_u32 x y z w ≡ v
  read_u32-write_u32 h =
      rw
        (
          big.write_u32_lem v h,
          big.read_u32_lem (v / 2 ^ 24) (v / 2 ^ 16 % 256) (v / 2 ^ 8 % 256) (v % 256) (omega arith)
              (omega arith) (omega arith) (omega arith),
        )
        (omega arith)
