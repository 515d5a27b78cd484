-- ===== src/Rtcp/SenderReport/RoundTrip.antt =====
-- `SendReportPacket`, rtcp_packet.h: `Serialize` and `Parse` one after the other.
use spadia.Common.{ℕ, ◌^◌, ◌<◌, ◌≡◌, refl, done, arith}
use spadia.Memory.{
  Buffer, ByteIo, IsBigEndian, malloc, load, store, read16, read32, write16, write32,
}
use spadia.Memory.Endian.{read_u16-write_u16, read_u32-write_u32}
use spadia.Rtcp.Header
use spadia.Rtcp.SenderReport.{SenderReport, serialize, parse}

-- The fields are `uint32_t`.
pub record IsReport (r : SenderReport) : Type 0 where
  pub ssrc_fits : r.ssrc < 2 ^ 32
  pub ntp_sec_fits : r.ntp_sec < 2 ^ 32
  pub ntp_frac_fits : r.ntp_frac < 2 ^ 32
  pub rtp_timestamp_fits : r.rtp_timestamp < 2 ^ 32
  pub packets_sent_fits : r.packets_sent < 2 ^ 32
  pub octets_sent_fits : r.octets_sent < 2 ^ 32

-- `Serialize` fills the 28 bytes that it allocates, and `Parse` reads every field back from them;
-- the report blocks are neither written nor read.
pub report_parse-serialize :
    (io : ByteIo) (junk : ℕ → ℕ) (r fresh : SenderReport)
    → IsBigEndian io
    → IsReport r
    → (b : Buffer) × (serialize io junk r ≡ done (28, b))
      × (b.size ≡ 28)
      × (parse io fresh b 0 28 ≡ done (record r { reports = fresh.reports }))
unfolding serialize parse Header.serialize Header.parse write16 write32 store load read16 read32
    malloc
report_parse-serialize io junk r fresh big v = (
  _,
  refl,
  refl,
  rw (
    read_u16-write_u16 io big 6 (omega arith),
    read_u32-write_u32 io big r.ssrc v.ssrc_fits,
    read_u32-write_u32 io big r.ntp_sec v.ntp_sec_fits,
    read_u32-write_u32 io big r.ntp_frac v.ntp_frac_fits,
    read_u32-write_u32 io big r.rtp_timestamp v.rtp_timestamp_fits,
    read_u32-write_u32 io big r.packets_sent v.packets_sent_fits,
    read_u32-write_u32 io big r.octets_sent v.octets_sent_fits,
  ),
)
