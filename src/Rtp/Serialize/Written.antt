-- ===== src/Rtp/Serialize/Written.antt =====
-- What `RTPPacket::Serialize` writes, and what the parser makes of it.
use spadia.Common.{
  ℕ, ◌+◌, ◌*◌, ◌^◌, ◌≤◌, ◌<◌, ◌≡◌, Bool, true, bit_or, done, u8, ◌<<<◌, arith, ap, ◌∙◌, lt→ltb,
  le→leb,
}
use spadia.Memory.{Buffer, ByteIo, IsBigEndian, malloc}
use spadia.Memory.Access.{
  stored, stored16, stored32, copied, write8-inside, write16-inside, write32-inside, copy-inside,
}
use spadia.Memory.Endian.{write_u16_parts, write_u32_parts}
use spadia.Common.Bits.{bit_or_fields}
use mathlib.Core.Bool.{or-true}
use spadia.Rtp.Packet.{RtpPacket, RtpSession, new_packet}
use spadia.Rtp.Parse.{parse}
use spadia.Rtp.Parse.Outcome.{HasHeader, opened, parse_without_header}
use spadia.Rtp.Serialize.{marker_bit, serialize}

marker_bit-lt : (m : Bool) → marker_bit m < 2
marker_bit-lt m = ground arith

module _ (io : ByteIo) (junk : ℕ → ℕ) (p : RtpPacket) (session : RtpSession) where
  abbrev first_byte : Buffer
  first_byte =
      let block : Buffer = record { size = 8 + p.payload_size; bytes = junk } in
      stored block 0 (io.write_u8 0x10)

  abbrev second_byte : ℕ
  second_byte = u8 (bit_or (marker_bit p.maker <<< 7) session.pt)

  abbrev two_bytes : Buffer
  two_bytes = stored first_byte 1 (io.write_u8 second_byte)

  abbrev with_seq : Buffer
  with_seq = stored16 io two_bytes 2 session.seq

  abbrev with_timestamp : Buffer
  with_timestamp = stored32 io with_seq 4 p.timestamp

  -- The block that is returned.
  abbrev pub out : Buffer
  out = copied with_timestamp 8 p.bytes p.payload_offset p.payload_size

  serialize-out :
      p.payload_offset + p.payload_size ≤ p.bytes.size
      → serialize io junk p session ≡ done (8 + p.payload_size, out)
  unfolding serialize malloc
  serialize-out h = rw (
    write8-inside io (record { size = 8 + p.payload_size; bytes = junk }) 0 0x10 (omega arith),
    write8-inside io first_byte 1 second_byte (omega arith),
    write16-inside io two_bytes 2 session.seq (omega arith),
    write32-inside io with_seq 4 p.timestamp (omega arith),
    copy-inside with_timestamp 8 p.bytes p.payload_offset p.payload_size (omega arith) h,
  )

  -- `Serialize` returns 8 bytes more than the payload: payload type and marker, sequence number and
  -- timestamp in network byte order, and behind them the payload of the packet.
  serialize_lem :
      IsBigEndian io
      → p.payload_offset + p.payload_size ≤ p.bytes.size
      → session.pt < 128
      → session.seq < 2 ^ 16
      → p.timestamp < 2 ^ 32
      → (b : Buffer) × (serialize io junk p session ≡ done (8 + p.payload_size, b))
        × (b.bytes 1 ≡ marker_bit p.maker * 128 + session.pt)
        × (b.bytes 2 * 256 + b.bytes 3 ≡ session.seq)
        × (((b.bytes 4 * 256 + b.bytes 5) * 256 + b.bytes 6) * 256 + b.bytes 7 ≡ p.timestamp)
        × ((i : ℕ) → i < p.payload_size → b.bytes (8 + i) ≡ p.bytes.bytes (p.payload_offset + i))
  serialize_lem big h pt seq ts = (
    out,
    serialize-out h,
    second,
    (write_u16_parts io big session.seq seq).0,
    (write_u32_parts io big p.timestamp ts).0,
    λ i inside. payload i inside,
  )
    where
      second : io.write_u8 second_byte ≡ marker_bit p.maker * 128 + session.pt
      second = ground (
        arith,
        marker_bit-lt p.maker,
        big.write_u8_lem second_byte (omega arith),
        bit_or_fields 7 (marker_bit p.maker) session.pt pt,
      )

      payload :
          (i : ℕ) → i < p.payload_size → out.bytes (8 + i) ≡ p.bytes.bytes (p.payload_offset + i)
      payload i inside =
          rw (le→leb 8 (8 + i) (omega arith), lt→ltb (8 + i) (8 + p.payload_size) (omega arith))
            (ap p.bytes.bytes (omega arith))

  -- The first byte carries version 0, so the parser takes none of what `Serialize` wrote: it
  -- answers `true` and sets no field but `data_` and `size_`.
  parse-serialize :
      IsBigEndian io
      → p.payload_offset + p.payload_size ≤ p.bytes.size
      → (fresh : RtpPacket) (now : ℕ)
      → (b : Buffer) × (serialize io junk p session ≡ done (8 + p.payload_size, b))
        × (parse io (new_packet fresh now) b (8 + p.payload_size)
            ≡ done (true, opened io fresh now b (8 + p.payload_size)))
  parse-serialize big h fresh now = (
    out,
    serialize-out h,
    parse_without_header io fresh now out (8 + p.payload_size) (omega arith) no_header
        ∙ rw (version_zero, or-true),
  )
    where
      version_zero : io.write_u8 0x10 ≡ 0x10
      version_zero = big.write_u8_lem 0x10 (omega arith)

      no_header : ¬ HasHeader out (8 + p.payload_size)
      no_header good = absurd (omega (arith, good.1, version_zero))
