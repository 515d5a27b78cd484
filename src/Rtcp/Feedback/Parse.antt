-- ===== src/Rtcp/Feedback/Parse.antt =====
-- `RTCPRTPFeedbackPacket::Parse` and the constructor that calls it. Nothing in the repository calls
-- the constructor.
use spadia.Common.{
  ℕ, ◌+◌, ◌^◌, ◌≡◌, ◌<◌, refl, [], Option, none, some, ◌==◌, if◌then◌else◌, Run, done, fault,
  null_pointer, ◌>>=◌, arith,
}
use spadia.Memory.{
  Buffer, ByteIo, IsBigEndian, malloc, load, store, read16, read32, write16, write32,
}
use spadia.Memory.Endian.{read_u16-write_u16, read_u32-write_u32}
use spadia.Rtcp.Header
use spadia.Rtcp.Header.{CommonHeader, new_header, header_size}
use spadia.Rtcp.TransportCc.Parse as StatusParse
use spadia.Rtcp.Feedback.{
  Nack, Field, nack, transport_cc, nack_type, transport_wide_type, parse_nack, serialize,
}

-- The class of the new field, by the header's count; `field_` is null where no branch is taken.
pub data Kind : Type 0 where
  nack_kind : Kind
  transport_cc_kind : Kind

unfoldable pub kind_of : ℕ → Option Kind
kind_of count =
    if count == nack_type
    then some nack_kind
    else if count == transport_wide_type
    then some transport_cc_kind
    else none

-- `junk_count` is what the `feedbackPacketCount` without an initializer holds.
module _ (io : ByteIo) (junk_count : ℕ) (b : Buffer) where
  -- `field_->Parse(data + len, size)`
  unfoldable pub parse_field : Option Kind → ℕ → ℕ → Run Field
  unfolding parse_nack StatusParse.parse
  parse_field none at size = fault null_pointer
  parse_field (some nack_kind) at size = do n ← parse_nack io b at; done (nack n)
  parse_field (some transport_cc_kind) at size = do
    t ←
        StatusParse.parse io b at size
          (record { reference_time = 0; feedback_packet_count = junk_count; packets = [] })
    done (transport_cc t)

  -- `Parse(data, size)` with `data` at `at`: `ssrc_` and `*field_`.
  unfoldable pub parse : ℕ → ℕ → Run (ℕ × Field)
  unfolding parse_field kind_of
  parse at size = do
    (_, header) ← Header.parse io b at size new_header
    ssrc ← read32 io b (at + header_size + 4)
    field ← parse_field (kind_of header.count) (at + header_size + 8) size
    done (ssrc, field)

  -- The constructor: a header, and then `Parse` behind it, which takes a header again.
  unfoldable pub from_data : ℕ → Run (ℕ × Field)
  unfolding parse
  from_data size = do (_, header) ← Header.parse io b 0 size new_header; parse header_size size

-- `Parse` at the front of what `Serialize` writes for a generic NACK reads SSRC and field back. But
-- the constructor calls it 4 bytes further on: there it takes the zeros of the sender's SSRC for
-- the header, finds no field for a count of 0, and calls a member of a null pointer.
pub feedback_parse-serialize :
    (io : ByteIo) (junk : ℕ → ℕ) (junk_count ssrc : ℕ) (n : Nack)
    → IsBigEndian io
    → ssrc < 2 ^ 32
    → n.ssrc < 2 ^ 32
    → n.fsn < 2 ^ 16
    → n.blp < 2 ^ 16
    → (b : Buffer) × (serialize io junk ssrc (nack n) ≡ done (20, b))
      × (parse io junk_count b 0 20 ≡ done (ssrc, nack n))
      × (from_data io junk_count b 20 ≡ fault null_pointer)
unfolding serialize from_data Header.serialize Header.parse malloc write16 write32 store load read16
    read32
feedback_parse-serialize io junk junk_count ssrc n big hs h1 h2 h3 = (
  _,
  refl,
  rw
      (
        read_u32-write_u32 io big ssrc hs,
        read_u32-write_u32 io big n.ssrc h1,
        read_u16-write_u16 io big n.fsn h2,
        read_u16-write_u16 io big n.blp h3,
      )
      refl,
  rw (big.write_u32_lem 0 (omega arith)) refl,
)
