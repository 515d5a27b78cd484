-- ===== src/Tests/Rtp.antt =====
-- An RTP packet with a one-byte extension, one that is written, and three that go wrong.
use spadia.Common.{
  ℕ, ◌+◌, ◌*◌, ◌/◌, ◌%◌, ◌^◌, ◌≡◌, refl, Bool, true, false, not, ◌||◌, List, [], ◌∷◌, some, ltb,
  ◌==◌, if◌then◌else◌, arith, done,
}
use spadia.Common.Dict.{lookup, insert}
use spadia.Memory.{load, read16, read32}
use spadia.Rtp.Packet.{RtpExtension, RtpPacket, RtpSession, new_packet}
use spadia.Rtp.Parse.{
  one_byte_profile, read_entry, ends_entries, entries_loop, read_entries, finish, parse_extensions,
  parse_body, parse_padding, parse_header, parse,
}
use spadia.Rtp.Parse.Steps.{announced, header_read}
use spadia.Rtp.Parse.Outcome.{
  HasHeader, has_padding, opened, parse_without_header, parse_returns, parse_layout, parse_fields,
  payload_start,
}
use spadia.Tests.{big_endian, big_endian-IsBigEndian, block_of, block_of-IsBytes}

-- A packet of version 2 with an extension of one word (id 1, one byte) and 3 bytes of payload.
abbrev pub wire : List ℕ
wire =
    0x90 ∷ 0xE0 ∷ 0x12 ∷ 0x34 ∷ 0 ∷ 0 ∷ 1 ∷ 2 ∷ 0 ∷ 0 ∷ 0 ∷ 7 ∷ 0xBE ∷ 0xDE ∷ 0 ∷ 1 ∷ 0x10 ∷ 0xAA
    ∷ 0 ∷ 0 ∷ 5 ∷ 6 ∷ 7 ∷ []

abbrev pub junk_packet : RtpPacket
junk_packet = record {
  payload_offset = 0;
  payload_size = 0;
  ssrc = 0;
  timestamp = 0;
  seq_num = 0;
  payload_type = 0;
  maker = false;
  bytes = block_of [];
  size = 0;
  padding_size = 0;
  seq_cycle = 0;
  recv_time_ms = 0;
  exts = [];
}

abbrev pub taken : RtpPacket
taken = record {
  payload_offset = 20;
  payload_size = 3;
  ssrc = 7;
  timestamp = 258;
  seq_num = 0x1234;
  payload_type = 96;
  maker = true;
  bytes = block_of wire;
  size = 23;
  padding_size = 0;
  seq_cycle = 0;
  recv_time_ms = 40;
  exts = (1, record { id = 1; length = 1; offset = 17 }) ∷ [];
}

pub wire_parsed :
    parse big_endian (new_packet junk_packet 40) (block_of wire) 23 ≡ done (true, taken)
unfolding parse parse_header parse_padding parse_body parse_extensions read_entries finish
    new_packet load read16 read32 insert entries_loop read_entry ends_entries
wire_parsed = refl

pub wire-HasHeader : HasHeader (block_of wire) 23
wire-HasHeader = (omega arith, refl, omega arith)

parse_returns_example :
    (r : Bool × RtpPacket) × (parse big_endian (new_packet junk_packet 40) (block_of wire) 23
      ≡ done r)
parse_returns_example = parse_returns big_endian junk_packet 40 (block_of wire) 23 (omega arith)

parse_layout_example :
    (20 + 3 + 0 ≡ 23)
    × (20 ≡ payload_start big_endian (block_of wire))
    × (0 ≡ announced (block_of wire) 23 (has_padding (block_of wire)))
parse_layout_example =
    parse_layout big_endian junk_packet 40 (block_of wire) 23 (omega arith) wire-HasHeader
      {p = taken} wire_parsed

parse_fields_example :
    (true ≡ (0xE0 / 128 == 1))
    × (96 ≡ 0xE0 % 128)
    × (0x1234 ≡ 0x12 * 256 + 0x34)
    × (258 ≡ ((0 * 256 + 0) * 256 + 1) * 256 + 2)
    × (7 ≡ ((0 * 256 + 0) * 256 + 0) * 256 + 7)
parse_fields_example =
    parse_fields big_endian junk_packet 40 (block_of wire) 23 (omega arith) big_endian-IsBigEndian
      (block_of-IsBytes wire refl) wire-HasHeader {p = taken} wire_parsed

-- A text is no RTP packet.
abbrev text : List ℕ
text = 72 ∷ 101 ∷ 108 ∷ 108 ∷ 111 ∷ []

parse_without_header_example :
    parse big_endian (new_packet junk_packet 40) (block_of text) 5
    ≡ done (
      true,
      if ltb 5 12 || not (72 / 2 ^ 6 == 2)
          then opened big_endian junk_packet 40 (block_of text) 5
          else header_read big_endian
              (block_of text)
              (opened big_endian junk_packet 40 (block_of text) 5),
    )
parse_without_header_example =
    parse_without_header big_endian junk_packet 40 (block_of text) 5 (omega arith)
      (λ h. omega (arith, h.0))

-- Two entries, ids 1 and 2, behind a header that ends at 4.
abbrev two_entries : List ℕ
two_entries = 0xBE ∷ 0xDE ∷ 0 ∷ 1 ∷ 0x10 ∷ 0xAA ∷ 0x20 ∷ 0xBB ∷ []

abbrev first_entry : RtpExtension
first_entry = record { id = 1; length = 1; offset = 5 }

abbrev second_entry : RtpExtension
second_entry = record { id = 2; length = 1; offset = 5 }

abbrev entries : List (ℕ × RtpExtension)
entries = (1, first_entry) ∷ (2, second_entry) ∷ []

entries_read : read_entries (block_of two_entries) one_byte_profile 4 4 [] ≡ done entries
unfolding read_entries entries_loop read_entry ends_entries insert load
entries_read = refl

first_found : lookup 1 entries ≡ some first_entry
unfolding lookup
first_found = refl

second_found : lookup 2 entries ≡ some second_entry
unfolding lookup
second_found = refl

abbrev outgoing : RtpSession
outgoing = record { ssrc = 9; seq = 513; pt = 96 }
