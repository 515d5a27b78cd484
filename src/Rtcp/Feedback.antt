-- ===== src/Rtcp/Feedback.antt =====
-- `RTCPRTPFeedbackPacket`, and its field `NackFeedBack`.
pub mod Single
pub mod Parse
use spadia.Common.{ℕ, ◌+◌, ◌%◌, u16, Run, done, ◌>>=◌}
use spadia.Memory.{Buffer, ByteIo, malloc, read16, read32, write16, write32}
use spadia.Rtcp.Header
use spadia.Rtcp.Header.{CommonHeader, new_header, header_size}
use spadia.Rtcp.TransportCc
use spadia.Rtcp.TransportCc.{TransportCc}

abbrev pub rtp_feedback_type : ℕ
rtp_feedback_type = 205

abbrev pub nack_type : ℕ
nack_type = 1

abbrev pub transport_wide_type : ℕ
transport_wide_type = 15

-- `enough`
abbrev pub enough : ℕ
enough = 1200

pub record Nack : Type 0 where
  pub ssrc : ℕ
  pub fsn : ℕ
  pub blp : ℕ

-- The classes that derive from `FeedBackField`.
pub data Field : Type 0 where
  nack : Nack → Field
  transport_cc : TransportCc → Field

abbrev pub type_of : Field → ℕ
type_of (nack n) = nack_type
type_of (transport_cc t) = transport_wide_type

module _ (io : ByteIo) where
  unfoldable pub parse_nack : Buffer → ℕ → Run Nack
  parse_nack b at = do
    ssrc ← read32 io b at
    fsn ← read16 io b (at + 4)
    blp ← read16 io b (at + 6)
    done (record { ssrc = ssrc; fsn = fsn; blp = blp })

  unfoldable pub serialize_nack : Nack → Buffer → ℕ → Run (ℕ × Buffer)
  serialize_nack n b at = do
    b1 ← write32 io b at n.ssrc
    b2 ← write16 io b1 (at + 4) n.fsn
    b3 ← write16 io b2 (at + 6) n.blp
    done (8, b3)

  -- `field_->Serialize(data)`
  unfoldable pub serialize_field : Field → Buffer → ℕ → Run (ℕ × Buffer)
  unfolding serialize_nack
  serialize_field (nack n) b at = serialize_nack n b at
  serialize_field (transport_cc t) b at = TransportCc.serialize io t b at

  -- `Serialize`: `header.length`, and the block; the header is written last.
  unfoldable pub serialize : (ℕ → ℕ) → ℕ → Field → Run (ℕ × Buffer)
  unfolding serialize_field
  serialize junk ssrc field = do
    let b0 = malloc junk enough
    b1 ← write32 io b0 header_size 0
    b2 ← write32 io b1 (header_size + 4) ssrc
    (field_size, b3) ← serialize_field field b2 (header_size + 8)
    let header : CommonHeader = record new_header {
      packet_type = rtp_feedback_type;
      length = u16 (field_size + (header_size + 8));
      count = type_of field;
    }
    (_, b4) ← Header.serialize io header b3 0 enough
    done (header.length, b4)
