-- ===== src/Rtcp/Compound/Bounds.antt =====
-- `RTCPPacket::Parse`, rtcp_packet.cpp: its loop, how far it reads and how many packets it counts.
use spadia.Common.{
  ℕ, zero, suc, ◌+◌, ◌-◌, ◌*◌, ◌≤◌, ◌<◌, ◌≡◌, inl, inr, List, [], ◌++◌, ltb, leb, ◌==◌, u16, u32,
  ◌<<<◌, Run, done, Yields, Yields-bind, Yields-done, Yields-map, Bool-cases, leb→le, arith,
}
use spadia.Memory.{Buffer, IsBytes, ByteIo, IsBigEndian, read8}
use spadia.Memory.Access.{load-inside, read16-inside, read32-inside}
use spadia.Rtcp.Header.{header_size, new_header}
use spadia.Rtcp.Header.RoundTrip.{parse-inside}
use spadia.Rtcp.SenderReport
use spadia.Rtcp.SenderReport.{SenderReport}
use spadia.Rtcp.Compound.{Item, parse_item, parse_loop, parse}

abbrev Ends : {A : Type 0} → Run A → Type 0
Ends = Yields (λ _. Unit {0})

parse_words-Ends :
    (io : ByteIo) (r : SenderReport) (b : Buffer) (at : ℕ)
    → at + 24 ≤ b.size
    → Ends (SenderReport.parse_words io r b at)
unfolding SenderReport.parse_words
parse_words-Ends io r b at room =
    rw
      (
        read32-inside io b at (omega arith),
        read32-inside io b (at + 4) (omega arith),
        read32-inside io b (at + 8) (omega arith),
        read32-inside io b (at + 12) (omega arith),
        read32-inside io b (at + 16) (omega arith),
        read32-inside io b (at + 20) (omega arith),
      )
      tt

-- A sender report reads at most 28 bytes from its own start, whatever its length says.
sender_report-Ends :
    (io : ByteIo) (r : SenderReport) (b : Buffer) (base size : ℕ)
    → base + 28 ≤ b.size
    → header_size ≤ size
    → Ends (SenderReport.parse io r b base size)
unfolding SenderReport.parse
sender_report-Ends io r b base size room big =
    rw (parse-inside io new_header b base size big (omega arith))
      (elim (Bool-cases (ltb size packet_length)) [
        | inl short ↦ rw short tt
        | inr whole ↦ rw whole (parse_words-Ends io r b (base + 4) (omega arith))
      ])
  where
    packet_length : ℕ
    packet_length = u16 ((io.read_u16 (b.bytes (base + 2)) (b.bytes (base + 2 + 1)) + 1) <<< 2)

module _ (io : ByteIo) (junk : ℕ) (b : Buffer) where
  parse_item-Ends :
      (pt base packet_len : ℕ)
      → base + 28 ≤ b.size
      → header_size ≤ packet_len
      → Ends (parse_item io junk pt b base packet_len)
  unfolding parse_item
  parse_item-Ends pt base packet_len room big = elim (Bool-cases (pt == 200)) [
    | inl sender ↦ rw sender (
        Yields-bind (λ _. Unit {0}) (λ _. Unit {0}) _ _
          (sender_report-Ends io SenderReport.new_report b base packet_len room big) λ r _. tt)
    | inr other ↦ rw other (elim (Bool-cases (pt == 201)) [ inl e ↦ rw e tt | inr e ↦ rw e tt ])
  ]

  abbrev Counts : ℕ → ℕ → ℕ × List Item → Type 0
  Counts cnt len r = (cnt ≤ r.0) × (4 * r.0 ≤ 4 * cnt + len)

  parse_loop-Counts :
      IsBigEndian io
      → IsBytes b
      → (fuel base len cnt : ℕ) (output : List Item) → (4 ≤ len → base + len + 24 ≤ b.size)
      → len < fuel
      → Yields (Counts cnt len) (parse_loop io junk fuel b base len cnt output)
  unfolding parse_loop read8
  parse_loop-Counts big bytes zero base len cnt output room enough = absurd (omega arith)
  parse_loop-Counts big bytes (suc fuel) base len cnt output room enough =
      elim (Bool-cases (leb 4 len)) [
        | inr over ↦ rw over (omega arith)
        | inl more ↦
            let more' = leb→le _ _ more in
            let room' = room more' in
            let packet_len =
              u32 (4 + io.read_u16 (b.bytes (base + 2)) (b.bytes (base + 2 + 1)) * 4) in
            let big_enough : 4 ≤ packet_len = omega (
              arith,
              big.read_u16_lem _ _ (bytes (base + 2)) (bytes (base + 2 + 1)),
              bytes (base + 2),
              bytes (base + 2 + 1),
            ) in
            rw
              (
                more,
                load-inside b (base + 1) (omega arith),
                read16-inside io b (base + 2) (omega arith),
              )
              (Yields-bind (λ _. Unit {0}) (Counts cnt len) _ _
                (parse_item-Ends (io.read_u8 (b.bytes (base + 1))) base packet_len (omega arith)
                  big_enough)
                λ items _.
                  Yields-map (Counts (cnt + 1) (len - packet_len)) (Counts cnt len) _
                    (parse_loop-Counts big bytes fuel (base + packet_len) (len - packet_len)
                      (cnt + 1) (output ++ items) (omega arith) (omega arith))
                    λ r c. omega (arith, c.0, c.1))
      ]

-- On any datagram, in a block with 24 bytes more, `RTCPPacket::Parse` returns, and counts at most
-- one packet for each four bytes.
pub compound_returns :
    (io : ByteIo) (junk : ℕ) (b : Buffer) (len : ℕ)
    → IsBigEndian io
    → IsBytes b
    → len + 24 ≤ b.size
    → (r : ℕ × List Item) × (parse io junk b len ≡ done r) × (4 * r.0 ≤ len)
unfolding parse
compound_returns io junk b len big bytes room =
    let (r, e, c) =
      Yields-done (Counts io junk b 0 len) _
        (parse_loop-Counts io junk b big bytes (len + 1) 0 len 0 [] (omega arith) (omega arith)) in
    (r, e, omega (arith, c.1))
