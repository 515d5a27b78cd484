-- ===== src/Rtcp/Compound.antt =====
-- `RTCPPacket`: the test that tells RTCP from RTP, and the parser of a compound packet.
pub mod Bounds
pub mod Overread
use spadia.Common.{
  ℕ, zero, suc, ◌+◌, ◌-◌, ◌*◌, Bool, false, ◌&&◌, List, [], ◌∷◌, ◌++◌, ltb, leb, ◌==◌,
  if◌then◌else◌, u32, bit_and, Run, done, stuck, ◌>>=◌,
}
use spadia.Memory.{Buffer, ByteIo, load, read8, read16}
use spadia.Rtcp.Header.{header_size}
use spadia.Rtcp.SenderReport
use spadia.Rtcp.SenderReport.{SenderReport, sender_report_type}
use spadia.Rtcp.ReceiverReport
use spadia.Rtcp.ReceiverReport.{ReceiverReport, receiver_report_type}

-- `IsRTCP`; `&&` does not read the byte of a packet that is too short.
unfoldable pub is_rtcp : Buffer → ℕ → Run Bool
is_rtcp b size =
    if leb 4 size
    then (do x ← load b 1; y ← load b 1; done (leb 64 (bit_and x 0x7f) && ltb (bit_and y 0x7f) 96))
    else done false

-- The classes whose objects the parser makes.
pub data Item : Type 0 where
  sender_report : SenderReport → Item
  receiver_report : ReceiverReport → Item

module _ (io : ByteIo) (junk : ℕ) where
  -- The `switch`: what it pushes for a packet of type `pt` and `packet_len` bytes at `base`.
  unfoldable pub parse_item : ℕ → Buffer → ℕ → ℕ → Run (List Item)
  parse_item pt b base packet_len =
      if pt == sender_report_type
      then (SenderReport.parse io SenderReport.new_report b base packet_len >>= λ r.
          done (sender_report r ∷ []))
      else (if pt == receiver_report_type
          then done (receiver_report (ReceiverReport.new_report junk) ∷ [])
          else done [])

  -- The loop. `len` goes below 0 where a packet announces more than is left; the loop ends then as
  -- it does at 0.
  unfoldable pub parse_loop : ℕ → Buffer → ℕ → ℕ → ℕ → List Item → Run (ℕ × List Item)
  parse_loop zero b base len cnt output = stuck
  parse_loop (suc fuel) b base len cnt output =
      let round = read8 io b (base + 1) >>= λ pt. read16 io b (base + 2) >>= λ slice_len.
      let packet_len = u32 (header_size + slice_len * 4) in
      parse_item pt b base packet_len >>= λ items.
      parse_loop fuel b (base + packet_len) (len - packet_len) (cnt + 1) (output ++ items) in
      if leb 4 len then round else done (cnt, output)

  -- `Parse`: the count returned and the packets pushed. A round takes 4 bytes at least.
  unfoldable pub parse : Buffer → ℕ → Run (ℕ × List Item)
  parse b len = parse_loop (len + 1) b 0 len 0 []
