-- ===== src/Rtcp/ReportBlock/Accessors.antt =====
-- Which setters of a report block are read back, and which run into a neighbour.
use spadia.Common.{ℕ, ◌+◌, ◌*◌, ◌/◌, ◌%◌, ◌^◌, ◌<◌, ◌≡◌, refl, bit_and, done, ◌>>=◌, arith, ap}
use spadia.Common.Bits.{bit_and_mask}
use spadia.Memory.{Buffer, IsBytes, ByteIo, IsBigEndian, load, store, read32, write8, write32}
use spadia.Memory.Endian.{read_u32-write_u32}
use spadia.Rtcp.ReportBlock.{
  get_ssrc, get_lost_count, get_last_seq_num, get_jitter, get_last_sr, get_delay_since_last_sr,
  set_ssrc, set_lost_count, set_last_seq_num, set_last_jitter, set_last_sr, set_delay_since_last_sr,
}

module _ (io : ByteIo) (bytes_of : ℕ → ℕ) (big : IsBigEndian io) where
  abbrev block : Buffer
  block = record { size = 24; bytes = bytes_of }

  -- The jitter and the two report times are read back as they were set, each from bytes of its own:
  -- set together, all three come back, and so does the lost count, cut to 23 bits, set after them.
  set_then_get :
      (jitter last delay count : ℕ)
      → jitter < 2 ^ 32
      → last < 2 ^ 32
      → delay < 2 ^ 32
      → (b : Buffer) × ((set_last_jitter io block jitter >>= λ b1. set_last_sr io b1 last >>= λ b2.
            set_delay_since_last_sr io b2 delay >>= λ b3. set_lost_count io b3 count)
          ≡ done b)
        × (get_jitter io b ≡ done jitter)
        × (get_last_sr io b ≡ done last)
        × (get_delay_since_last_sr io b ≡ done delay)
        × (get_lost_count io b ≡ done (count % 2 ^ 23))
  unfolding set_last_jitter set_last_sr set_delay_since_last_sr set_lost_count get_jitter
      get_last_sr get_delay_since_last_sr get_lost_count write32 read32 store load
  set_then_get jitter last delay count hj hl hd = (
    _,
    refl,
    ap done (read_u32-write_u32 io big jitter hj),
    ap done (read_u32-write_u32 io big last hl),
    ap done (read_u32-write_u32 io big delay hd),
    ap done (
        ground (
          arith,
          bit_and_mask 23 count,
          read_u32-write_u32 io big (bit_and count 0x7FFFFF),
          bit_and_mask 23 (bit_and count 0x7FFFFF),
        )),
  )

  -- `SetSSRC` stores the low byte of the SSRC alone, in the place of the highest: what `GetSSRC`
  -- reads has that byte on top and keeps the other three bytes of the block.
  get_ssrc-set_ssrc :
      IsBytes block
      → (ssrc : ℕ)
      → (b : Buffer) × (set_ssrc io block ssrc ≡ done b)
        × (get_ssrc io b
            ≡ done (ssrc % 256 * 2 ^ 24 + bytes_of 1 * 2 ^ 16 + bytes_of 2 * 2 ^ 8 + bytes_of 3))
  unfolding set_ssrc get_ssrc write8 read32 store load
  get_ssrc-set_ssrc bytes ssrc = (
    _,
    refl,
    ap done (
        ground (
          arith,
          big.write_u8_lem (ssrc % 256) (omega arith),
          big.read_u32_lem (ssrc % 256) (bytes_of 1) (bytes_of 2) (bytes_of 3) (omega arith)
              (bytes 1) (bytes 2) (bytes 3),
        )),
  )

  -- `SetLostCount` writes four bytes for three: the sequence number set before it is read back with
  -- its highest byte replaced by the lowest of the count.
  set_lost_count_clobbers :
      (seq count : ℕ)
      → seq < 2 ^ 32
      → (b : Buffer) × ((set_last_seq_num io block seq >>= λ b1. set_lost_count io b1 count)
          ≡ done b)
        × (get_last_seq_num io b ≡ done (count % 256 * 2 ^ 24 + seq % 2 ^ 24))
  unfolding set_last_seq_num set_lost_count get_last_seq_num write32 read32 store load
  set_lost_count_clobbers seq count fits = (
    _,
    refl,
    ap done (
        ground (
          arith,
          bit_and_mask 23 count,
          big.write_u32_lem seq fits,
          big.write_u32_lem (bit_and count 0x7FFFFF),
          big.read_u32_lem (count % 2 ^ 23 % 256) (seq / 2 ^ 16 % 256) (seq / 2 ^ 8 % 256)
              (seq % 256) (omega arith) (omega arith) (omega arith) (omega arith),
        )),
  )
