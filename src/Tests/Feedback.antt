-- ===== src/Tests/Feedback.antt =====
-- Feedback for the packet of the RTP examples, and a NACK.
use spadia.Common.{
  ℕ, ◌+◌, ◌*◌, ◌^◌, ◌≤◌, List, [], ◌∷◌, All, length, Yields, null_pointer, ◌/◌, ◌%◌, ◌<◌, ◌≡◌, refl,
  true, leb, if◌then◌else◌, some, arith, done, fault, signed_overflow,
}
use spadia.Common.Dict.{lookup}
use spadia.Memory.{Buffer, load, read8, read16, read32}
use spadia.Rtp.Packet.{RtpExtension}
use spadia.Rtcp.Feedback
use spadia.Rtcp.Feedback.{Nack, nack, parse_nack}
use spadia.Rtcp.Feedback.Parse as FeedbackParse
use spadia.Rtcp.Feedback.Parse.{feedback_parse-serialize}
use spadia.Rtcp.TransportCc.{TransportCc}
use spadia.Rtcp.TransportCc.Parse.{read_chunks}
use spadia.Rtcp.TransportCc.Parse as StatusParse
use spadia.Rtcp.TransportCc.Parse.Bounds.{IsEntry, feedback_parse_returns}
use spadia.Rtcp.Feedback.Single.{HasFields}
use spadia.Session.Manager.{add_packet}
use spadia.Session.Manager.Sent.{
  agreed, get_extension_id-agreed, add_packet_sends, add_packet_overflows,
}
use spadia.Tests.{big_endian, big_endian-IsBigEndian, block_of, block_of-IsBytes}
use spadia.Tests.Rtp.{wire, taken}

abbrev lost_one : Nack
lost_one = record { ssrc = 7; fsn = 1000; blp = 3 }

abbrev pub entry : RtpExtension
entry = record { id = 1; length = 1; offset = 17 }

pub entry_found : lookup 1 taken.exts ≡ some entry
unfolding lookup
entry_found = refl

pub some_time : 0 < 321000
some_time = omega arith

add_packet_sends_example :
    (b : Buffer) × (add_packet big_endian (λ _. 0) 200 321000 true (agreed 1) taken
      ≡ done (some (24, b)))
    × HasFields big_endian
        (λ _. 0)
        7
        200
        0xAA00
        321000
        some_time
        (if leb (321000 % 64000 / 250) 127 then 0xD000 else 0xE000)
        b
    × ((if leb (321000 % 64000 / 250) 127 then read8 big_endian b 22 else read16 big_endian b 22)
        ≡ done (321000 % 64000 / 250))
add_packet_sends_example =
    add_packet_sends big_endian (λ _. 0) 200 321000 (agreed 1) 1 (get_extension_id-agreed 1) taken
      entry big_endian-IsBigEndian (block_of-IsBytes wire refl) entry_found (omega arith) some_time
      (omega arith) (omega arith) refl

-- The same packet six days later.
add_packet_overflows_example :
    add_packet big_endian (λ _. 0) 200 536871233000 true (agreed 1) taken ≡ fault signed_overflow
add_packet_overflows_example =
    add_packet_overflows big_endian (λ _. 0) 200 536871233000 (agreed 1) 1
      (get_extension_id-agreed 1) taken entry big_endian-IsBigEndian (block_of-IsBytes wire refl)
      entry_found (omega arith) (omega arith) true refl

feedback_parse-serialize_example :
    (b : Buffer) × (Feedback.serialize big_endian (λ _. 0) 9 (nack lost_one) ≡ done (20, b))
    × (FeedbackParse.parse big_endian 77 b 0 20 ≡ done (9, nack lost_one))
    × (FeedbackParse.from_data big_endian 77 b 20 ≡ fault null_pointer)
feedback_parse-serialize_example =
    feedback_parse-serialize big_endian (λ _. 0) 77 9 lost_one big_endian-IsBigEndian (omega arith)
      (omega arith) (omega arith) (omega arith)

-- Feedback for packet 5 alone, 2 ms after the reference time 1, with one byte for the delta.
abbrev statuses : List ℕ
statuses = 0 ∷ 5 ∷ 0 ∷ 1 ∷ 0 ∷ 0 ∷ 1 ∷ 7 ∷ 0xD0 ∷ 0 ∷ 8 ∷ 0 ∷ []

abbrev unread : TransportCc
unread = record { reference_time = 0; feedback_packet_count = 77; packets = [] }

-- The number of packets is read into the low half of the packet's number, and the count of
-- feedback packets is masked out of a reference time that keeps its shift.
statuses_read :
    StatusParse.parse big_endian (block_of statuses) 0 12 unread
    ≡ done (record {
      reference_time = 256;
      feedback_packet_count = 7;
      packets = (5 * 2 ^ 16 + 1, 256 * 64000 + 2000) ∷ [];
    })
unfolding StatusParse.parse read8 read16 read32 load
statuses_read = refl

feedback_parse_returns_example :
    Yields
      (λ t. All IsEntry t.packets × (length t.packets ≤ length unread.packets + (0 * 256 + 1)))
      (StatusParse.parse big_endian (block_of statuses) 0 12 unread)
feedback_parse_returns_example =
    feedback_parse_returns big_endian (block_of statuses) 0 12 (omega arith) big_endian-IsBigEndian
      (block_of-IsBytes statuses refl) unread tt

abbrev few : List ℕ
few = 1 ∷ 2 ∷ 0 ∷ []
