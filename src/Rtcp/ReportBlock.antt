-- ===== src/Rtcp/ReportBlock.antt =====
-- `RTCPReceiverReportBlock`: accessors over a buffer of 24 bytes. `Delay` has the two
-- functions in milliseconds.
pub mod Accessors
pub mod Delay
use spadia.Common.{ℕ, ◌+◌, ◌%◌, ltb, if◌then◌else◌, u8, bit_and, Run, done, ◌>>=◌}
use spadia.Memory.{Buffer, ByteIo, copy, read8, read32, write8, write32}

-- `uint8_t buffer[24] = {0}`
abbrev pub new_block : Buffer
new_block = record { size = 24; bytes = λ _. 0 }

module _ (io : ByteIo) where
  unfoldable pub get_ssrc : Buffer → Run ℕ
  get_ssrc b = read32 io b 0

  unfoldable pub get_fraction_lost : Buffer → Run ℕ
  get_fraction_lost b = read8 io b 4

  unfoldable pub get_lost_count : Buffer → Run ℕ
  get_lost_count b = read32 io b 5 >>= λ v. done (bit_and v 0x007FFFFF)

  unfoldable pub get_last_seq_num : Buffer → Run ℕ
  get_last_seq_num b = read32 io b 8

  unfoldable pub get_jitter : Buffer → Run ℕ
  get_jitter b = read32 io b 12

  unfoldable pub get_last_sr : Buffer → Run ℕ
  get_last_sr b = read32 io b 16

  unfoldable pub get_delay_since_last_sr : Buffer → Run ℕ
  get_delay_since_last_sr b = read32 io b 20

  -- `SetSSRC` calls the writer of one byte.
  unfoldable pub set_ssrc : Buffer → ℕ → Run Buffer
  set_ssrc b ssrc = write8 io b 0 (u8 ssrc)

  unfoldable pub set_fraction_lost : Buffer → ℕ → Run Buffer
  set_fraction_lost b fraction = write8 io b 4 fraction

  unfoldable pub set_lost_count : Buffer → ℕ → Run Buffer
  set_lost_count b count = write32 io b 5 (bit_and count 0x7FFFFF)

  unfoldable pub set_last_seq_num : Buffer → ℕ → Run Buffer
  set_last_seq_num b seq = write32 io b 8 seq

  unfoldable pub set_last_jitter : Buffer → ℕ → Run Buffer
  set_last_jitter b jitter = write32 io b 12 jitter

  unfoldable pub set_last_sr : Buffer → ℕ → Run Buffer
  set_last_sr b last = write32 io b 16 last

  unfoldable pub set_delay_since_last_sr : Buffer → ℕ → Run Buffer
  set_delay_since_last_sr b delay = write32 io b 20 delay

-- `Serialize(data, size)`, with `data` at `base` of `out`: 24, or 0 where it does not fit.
unfoldable pub serialize : Buffer → Buffer → ℕ → ℕ → Run (ℕ × Buffer)
serialize block out base size =
    if ltb size 24 then done (0, out) else (copy out base block 0 24 >>= λ out'. done (24, out'))

-- `Parse(data, size)`
unfoldable pub parse : Buffer → Buffer → ℕ → ℕ → Run (ℕ × Buffer)
parse block data_block base size =
    if ltb size 24
    then done (0, block)
    else (copy block 0 data_block base 24 >>= λ block'. done (24, block'))
