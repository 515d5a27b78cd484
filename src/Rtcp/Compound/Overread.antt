-- ===== src/Rtcp/Compound/Overread.antt =====
-- What a sender report that is too short makes the parser read.
use native.Mathlib.Decide.{dec_le}
use native.Mathlib.Numerals.{add-one}
use spadia.Common.{
  ℕ, ◌+◌, ◌*◌, ◌^◌, ◌≤◌, ◌<◌, ◌≡◌, fault, out_of_bounds, u16, u32, ltb-false, le→leb, ◌<<<◌, arith,
}
use spadia.Memory.{Buffer, IsBytes, ByteIo, IsBigEndian, read8}
use spadia.Memory.Access.{load-inside, read16-inside, read32-inside, read32-outside}
use spadia.Rtcp.Header.{new_header}
use spadia.Rtcp.Header.RoundTrip.{parse-inside}
use spadia.Rtcp.SenderReport
use spadia.Rtcp.SenderReport.{SenderReport}
use spadia.Rtcp.Compound.{parse_item, parse_loop, parse}

parse_words-outside :
    (io : ByteIo) (r : SenderReport) (b : Buffer) (at : ℕ)
    → b.size < at + 24
    → SenderReport.parse_words io r b at ≡ fault out_of_bounds
unfolding SenderReport.parse_words
parse_words-outside io r b at short = elim (dec_le (at + 4) b.size) [
  | no h ↦ rw (read32-outside io b at (omega arith))
  | yes h ↦ rw (read32-inside io b at h) (elim (dec_le (at + 4 + 4) b.size) [
    | no h ↦ rw (read32-outside io b (at + 4) (omega arith))
    | yes h ↦ rw (read32-inside io b (at + 4) h) (elim (dec_le (at + 8 + 4) b.size) [
      | no h ↦ rw (read32-outside io b (at + 8) (omega arith))
      | yes h ↦ rw (read32-inside io b (at + 8) h) (elim (dec_le (at + 12 + 4) b.size) [
        | no h ↦ rw (read32-outside io b (at + 12) (omega arith))
        | yes h ↦ rw (read32-inside io b (at + 12) h) (elim (dec_le (at + 16 + 4) b.size) [
          | no h ↦ rw (read32-outside io b (at + 16) (omega arith))
          | yes h ↦ rw (read32-inside io b (at + 16) h, read32-outside io b (at + 20) (omega arith))
        ])
      ])
    ])
  ])
]

-- A datagram below 28 bytes that begins with a sender report makes `RTCPPacket::Parse` read
-- behind its end: the report's own length is compared with itself, never with the datagram's.
parse_overread :
    (io : ByteIo) (junk : ℕ) (b : Buffer)
    → IsBigEndian io
    → IsBytes b
    → 4 ≤ b.size
    → b.size < 28
    → b.bytes 1 ≡ 200
    → parse io junk b b.size ≡ fault out_of_bounds
unfolding parse parse_loop parse_item read8 SenderReport.parse
parse_overread io junk b big bytes long short sender = rw (
  add-one b.size,
  le→leb 4 b.size long,
  load-inside b 1 (omega arith),
  sender,
  big.read_u8_lem 200 (omega arith),
  read16-inside io b 2 (omega arith),
  parse-inside io new_header b 0 (u32 (4 + io.read_u16 (b.bytes 2) (b.bytes 3) * 4)) big_enough
      (omega arith),
  ltb-false (u32 (4 + w * 4)) (u16 ((w + 1) <<< 2)) (omega (arith, w_fits)),
  parse_words-outside io SenderReport.new_report b 4 (omega arith),
)
  where
    w : ℕ
    w = io.read_u16 (b.bytes 2) (b.bytes 3)

    w_fits : w < 2 ^ 16
    w_fits = omega (arith, big.read_u16_lem _ _ (bytes 2) (bytes 3), bytes 2, bytes 3)

    big_enough : 4 ≤ u32 (4 + io.read_u16 (b.bytes 2) (b.bytes 3) * 4)
    big_enough = omega (arith, big.read_u16_lem _ _ (bytes 2) (bytes 3), bytes 2, bytes 3)
