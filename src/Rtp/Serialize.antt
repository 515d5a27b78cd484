-- ===== src/Rtp/Serialize.antt =====
-- `RTPPacket::Serialize`, which leaves its extensions out.
pub mod Written
use spadia.Common.{ℕ, ◌+◌, Bool, u8, ◌<<<◌, bit_or, if◌then◌else◌, Run, done, ◌>>=◌}
use spadia.Memory.{Buffer, ByteIo, malloc, copy, write8, write16, write32}
use spadia.Rtp.Packet.{RtpSession, RtpPacket}

abbrev pub marker_bit : Bool → ℕ
marker_bit m = if m then 1 else 0

-- The returned `len`, and the block that `data` then points to.
unfoldable pub serialize : ByteIo → (ℕ → ℕ) → RtpPacket → RtpSession → Run (ℕ × Buffer)
serialize io junk p session = do
  let len = 8 + p.payload_size
  let b0 = malloc junk len
  b1 ← write8 io b0 0 0x10
  b2 ← write8 io b1 1 (u8 (bit_or (marker_bit p.maker <<< 7) session.pt))
  b3 ← write16 io b2 2 session.seq
  b4 ← write32 io b3 4 p.timestamp
  b5 ← copy b4 8 p.bytes p.payload_offset p.payload_size
  done (len, b5)
