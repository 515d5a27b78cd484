-- ===== src/Rtp/Packet.antt =====
-- The classes of rtp_packet.h: `RTPExtension`, `RTPSession`, `RTPPacket` and its inline members.
use spadia.Common.{ℕ, Bool, List, [], Option, none, some, u32, ◌<<<◌, bit_or, Run, done, ◌>>=◌}
use spadia.Common.Dict.{lookup}
use spadia.Memory.{Buffer, ByteIo, read16}

-- `struct RTPExtension`; the pointer `data` is an offset into the packet's bytes.
pub record RtpExtension : Type 0 where
  pub id : ℕ
  pub length : ℕ
  pub offset : ℕ

pub record RtpSession : Type 0 where
  pub ssrc : ℕ
  pub seq : ℕ
  pub pt : ℕ

pub record RtpPacket : Type 0 where
  pub payload_offset : ℕ
  pub payload_size : ℕ
  pub ssrc : ℕ
  pub timestamp : ℕ
  pub seq_num : ℕ
  pub payload_type : ℕ
  pub maker : Bool
  pub bytes : Buffer
  pub size : ℕ
  pub padding_size : ℕ
  pub seq_cycle : ℕ
  pub recv_time_ms : ℕ
  pub exts : List (ℕ × RtpExtension)

-- `RTPPacket()` at time `now`. The members without an initializer hold what was there, `junk`.
unfoldable pub new_packet : RtpPacket → ℕ → RtpPacket
new_packet junk now = record junk { seq_cycle = 0; recv_time_ms = now; exts = [] }

-- `uint32_t (seqCycle_ << 16u) | seqNum_`
unfoldable pub ext_seq_num : RtpPacket → ℕ
ext_seq_num p = bit_or (u32 (p.seq_cycle <<< 16)) p.seq_num

unfoldable pub set_seq_cycle : RtpPacket → ℕ → RtpPacket
set_seq_cycle p cycle = record p { seq_cycle = cycle }

-- The branches of `GetTransportCCNum` on what `exts_.find(id)` found.
unfoldable pub read_number : ByteIo → RtpPacket → Option RtpExtension → Run (Option ℕ)
read_number io p none = done none
read_number io p (some e) = read16 io p.bytes e.offset >>= λ num. done (some num)

-- `GetTransportCCNum`; `none` is the `false` that it returns without setting `num`.
unfoldable pub get_transport_cc_num : ByteIo → RtpPacket → ℕ → Run (Option ℕ)
unfolding read_number
get_transport_cc_num io p id = read_number io p (lookup id p.exts)
