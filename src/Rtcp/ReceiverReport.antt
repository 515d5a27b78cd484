-- ===== src/Rtcp/ReceiverReport.antt =====
-- `ReceiverReportPacket`.
pub mod Blocks
use spadia.Common.{
  ℕ, zero, suc, ◌+◌, ◌-◌, Bool, false, List, [], ◌∷◌, ◌++◌, ltb, leb, ◌==◌, if◌then◌else◌, u8,
  length, Run, done, ◌>>=◌,
}
use spadia.Memory.{Buffer, ByteIo, malloc, read32, write32}
use spadia.Rtcp.Header
use spadia.Rtcp.Header.{CommonHeader, new_header, header_size}
use spadia.Rtcp.ReportBlock
use spadia.Rtcp.ReportBlock.{new_block}

abbrev pub receiver_report_type : ℕ
receiver_report_type = 201

-- `RTCPCommonHeaderSize + sizeof(ssrc) + ReceiverReportSize`
abbrev pub packet_size : ℕ
packet_size = 32

pub record ReceiverReport : Type 0 where
  pub ssrc : ℕ
  pub reports : List Buffer

-- Both constructors: the one that takes the data does not parse it. `ssrc` holds what was there.
abbrev pub new_report : ℕ → ReceiverReport
new_report junk = record { ssrc = junk; reports = [] }

abbrev pub report_header : ReceiverReport → CommonHeader
report_header r = record new_header {
  count = u8 (length r.reports);
  packet_type = receiver_report_type;
  padding = false;
  length = packet_size;
}

-- The loop over the first `n` blocks.
unfoldable pub serialize_blocks : ℕ → List Buffer → Buffer → ℕ → Run (ℕ × Buffer)
serialize_blocks zero blocks b len = done (len, b)
serialize_blocks (suc n) [] b len = done (len, b)
serialize_blocks (suc n) (block ∷ blocks) b len = do
  (written, b1) ← ReportBlock.serialize block b len (packet_size - len)
  serialize_blocks n blocks b1 (len + written)

module _ (io : ByteIo) where
  unfoldable pub serialize : (ℕ → ℕ) → ReceiverReport → Run (ℕ × Buffer)
  unfolding serialize_blocks
  serialize junk r = do
    let b0 = malloc junk packet_size
    (len, b1) ← Header.serialize io (report_header r) b0 0 packet_size
    b2 ← write32 io b1 len r.ssrc
    serialize_blocks (report_header r).count r.reports b2 (len + 4)

-- The loop over the blocks of the header's count that lie in the packet.
unfoldable pub parse_blocks : ℕ → Buffer → ℕ → ℕ → ℕ → List Buffer → Run (List Buffer)
parse_blocks zero b base len size reports = done reports
parse_blocks (suc n) b base len size reports =
    let more = ReportBlock.parse new_block b (base + len) (size - len) >>= λ r.
    parse_blocks n b base (len + r.0) size (reports ++ r.1 ∷ []) in
    if leb (len + 24) size then more else done reports

module _ (io : ByteIo) where
  -- `Parse`, which nothing calls.
  unfoldable pub parse : ReceiverReport → Buffer → ℕ → ℕ → Run ReceiverReport
  unfolding parse_blocks
  parse r b base size = do
    (len, header) ← Header.parse io b base size new_header
    if len == 0
        then done r
        else (if ltb size header.length then done r else (do
          ssrc ← read32 io b (base + len)
          reports ← parse_blocks header.count b base (len + 4) size r.reports
          done (record { ssrc = ssrc; reports = reports })))
