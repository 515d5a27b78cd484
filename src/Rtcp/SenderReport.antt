-- ===== src/Rtcp/SenderReport.antt =====
-- `SendReportPacket`. `Timestamp` has its timestamp functions.
pub mod RoundTrip
pub mod Timestamp
use spadia.Common.{
  ℕ, ◌+◌, ◌*◌, Bool, false, List, [], ltb, ◌==◌, if◌then◌else◌, u8, length, Run, done, ◌>>=◌,
}
use spadia.Memory.{Buffer, ByteIo, malloc, read32, write32}
use spadia.Rtcp.Header
use spadia.Rtcp.Header.{CommonHeader, new_header, header_size}

abbrev pub sender_report_type : ℕ
sender_report_type = 200

-- `SenderReportSize`
abbrev pub sender_report_size : ℕ
sender_report_size = 24

-- The report blocks are their buffers.
pub record SenderReport : Type 0 where
  pub ssrc : ℕ
  pub ntp_sec : ℕ
  pub ntp_frac : ℕ
  pub rtp_timestamp : ℕ
  pub packets_sent : ℕ
  pub octets_sent : ℕ
  pub reports : List Buffer

-- `SendReportPacket()`
abbrev pub new_report : SenderReport
new_report = record {
  ssrc = 0;
  ntp_sec = 0;
  ntp_frac = 0;
  rtp_timestamp = 0;
  packets_sent = 0;
  octets_sent = 0;
  reports = [];
}

abbrev pub report_header : SenderReport → CommonHeader
report_header r = record new_header {
  count = u8 (length r.reports);
  packet_type = sender_report_type;
  padding = false;
  length = header_size + sender_report_size;
}

module _ (io : ByteIo) where
  -- The words from `len` on.
  unfoldable pub serialize_words : SenderReport → Buffer → ℕ → Run (ℕ × Buffer)
  serialize_words r b len = do
    b1 ← write32 io b len r.ssrc
    b2 ← write32 io b1 (len + 4) r.ntp_sec
    b3 ← write32 io b2 (len + 8) r.ntp_frac
    b4 ← write32 io b3 (len + 12) r.rtp_timestamp
    b5 ← write32 io b4 (len + 16) r.packets_sent
    b6 ← write32 io b5 (len + 20) r.octets_sent
    done (len + 24, b6)

  -- `Serialize`: the length returned, and the block.
  unfoldable pub serialize : (ℕ → ℕ) → SenderReport → Run (ℕ × Buffer)
  unfolding serialize_words
  serialize junk r = do
    let b0 = malloc junk (header_size + sender_report_size)
    (len, b1) ← Header.serialize io (report_header r) b0 0 (header_size + sender_report_size)
    serialize_words r b1 len

  unfoldable pub parse_words : SenderReport → Buffer → ℕ → Run SenderReport
  parse_words r b at = do
    ssrc ← read32 io b at
    ntp_sec ← read32 io b (at + 4)
    ntp_frac ← read32 io b (at + 8)
    rtp_timestamp ← read32 io b (at + 12)
    packets_sent ← read32 io b (at + 16)
    octets_sent ← read32 io b (at + 20)
    done (record r {
      ssrc = ssrc;
      ntp_sec = ntp_sec;
      ntp_frac = ntp_frac;
      rtp_timestamp = rtp_timestamp;
      packets_sent = packets_sent;
      octets_sent = octets_sent;
    })

  -- `Parse`, with `data` at `base` of `b`.
  unfoldable pub parse : SenderReport → Buffer → ℕ → ℕ → Run SenderReport
  unfolding parse_words
  parse r b base size = do
    (len, header) ← Header.parse io b base size new_header
    if len == 0
        then done r
        else (if ltb size header.length then done r else parse_words r b (base + len))
