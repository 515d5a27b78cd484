-- ===== src/Tests/Rtcp.antt =====
-- RTCP headers, report blocks, reports and datagrams at concrete inputs.
use spadia.Common.{ℕ, ◌*◌, ◌≤◌, ◌≡◌, refl, List, [], ◌∷◌, arith, done}
use spadia.Memory.{Buffer}
use spadia.Rtcp.SenderReport
use spadia.Rtcp.SenderReport.{SenderReport}
use spadia.Rtcp.SenderReport.RoundTrip.{IsReport, report_parse-serialize}
use spadia.Rtcp.Compound
use spadia.Rtcp.Compound.{Item}
use spadia.Rtcp.Compound.Bounds.{compound_returns}
use spadia.Tests.{big_endian, big_endian-IsBigEndian, block_of, block_of-IsBytes}

abbrev block : Buffer
block = record { size = 24; bytes = λ i. i }

abbrev zeros : ℕ → ℕ
zeros i = 0

abbrev zero_block : Buffer
zero_block = record { size = 24; bytes = zeros }

abbrev sent : SenderReport
sent = record {
  ssrc = 7;
  ntp_sec = 100;
  ntp_frac = 200;
  rtp_timestamp = 300;
  packets_sent = 4;
  octets_sent = 500;
  reports = [];
}

sent-IsReport : IsReport sent
sent-IsReport = record {
  ssrc_fits = omega arith;
  ntp_sec_fits = omega arith;
  ntp_frac_fits = omega arith;
  rtp_timestamp_fits = omega arith;
  packets_sent_fits = omega arith;
  octets_sent_fits = omega arith;
}

report_example :
    (b : Buffer) × (SenderReport.serialize big_endian zeros sent ≡ done (28, b))
    × (b.size ≡ 28)
    × (SenderReport.parse big_endian SenderReport.new_report b 0 28
        ≡ done (record sent { reports = [] }))
report_example =
    report_parse-serialize big_endian zeros sent SenderReport.new_report big_endian-IsBigEndian
      sent-IsReport

-- A receiver report of 8 bytes, in a block with 24 more.
abbrev datagram : List ℕ
datagram =
    0x80 ∷ 201 ∷ 0 ∷ 1 ∷ 0 ∷ 0 ∷ 0 ∷ 7 ∷ 0 ∷ 0 ∷ 0 ∷ 0 ∷ 0 ∷ 0 ∷ 0 ∷ 0 ∷ 0 ∷ 0 ∷ 0 ∷ 0 ∷ 0 ∷ 0 ∷ 0
    ∷ 0 ∷ 0 ∷ 0 ∷ 0 ∷ 0 ∷ 0 ∷ 0 ∷ 0 ∷ 0 ∷ []

compound_returns_example :
    (r : ℕ × List Item) × (Compound.parse big_endian 0 (block_of datagram) 8 ≡ done r)
    × (4 * r.0 ≤ 8)
compound_returns_example =
    compound_returns big_endian 0 (block_of datagram) 8 big_endian-IsBigEndian
      (block_of-IsBytes datagram refl) (omega arith)

-- A sender report that is cut off after its SSRC.
abbrev cut_off : List ℕ
cut_off = 0x80 ∷ 200 ∷ 0 ∷ 1 ∷ 0 ∷ 0 ∷ 0 ∷ 7 ∷ []
