-- ===== src/Rtcp/Header/RoundTrip.antt =====
-- What `Serialize` writes and what `Parse` reads back.
use spadia.Common.{
  ℕ, ◌+◌, ◌-◌, ◌/◌, ◌%◌, ◌^◌, ◌≤◌, ◌<◌, ◌≡◌, not, leb, ◌==◌, if◌then◌else◌, u16, ◌>>>◌, ◌<<<◌,
  bit_and, bit_or, done, arith, ap, ◌∙◌, ltb-false,
}
use spadia.Common.Bits.{bit_and_mask, bit_or_fields}
use spadia.Memory.{Buffer, ByteIo, IsBigEndian}
use spadia.Memory.Access.{
  stored, stored16, load-inside, store-inside, read16-inside, write16-inside,
}
use spadia.Memory.Endian.{read_u16-write_u16}
use spadia.Rtcp.Header.{header_size, CommonHeader, parse, serialize}

abbrev pub first_byte : CommonHeader → ℕ
first_byte h = bit_or (if h.padding then 0xA0 else 0x80) (bit_and h.count 0x1F)

-- The length in words, less one.
abbrev pub words : CommonHeader → ℕ
words h = u16 ((h.length >>> 2) + 2 ^ 16 - 1)

module _ (io : ByteIo) (h : CommonHeader) (b : Buffer) (base : ℕ) where
  -- The block after the header is written.
  abbrev pub with_header : Buffer
  with_header =
      stored16 io (stored (stored b base (first_byte h)) (base + 1) h.packet_type) (base + 2)
        (words h)

  pub serialize-with_header :
      (size : ℕ)
      → header_size ≤ size
      → base + 4 ≤ b.size
      → serialize io h b base size ≡ done (header_size, with_header)
  unfolding serialize
  serialize-with_header size h4 room = rw (
    ltb-false size header_size h4,
    store-inside b base (first_byte h) (omega arith),
    store-inside (stored b base (first_byte h)) (base + 1) h.packet_type (omega arith),
    write16-inside io (stored (stored b base (first_byte h)) (base + 1) h.packet_type) (base + 2)
        (words h) (omega arith),
  )

first_byte_lem :
    (h : CommonHeader) → h.count < 32 → first_byte h ≡ (if h.padding then 160 else 128) + h.count
first_byte_lem h small = ground (
  arith,
  bit_and_mask 5 h.count,
  bit_or_fields 5 5 h.count small,
  bit_or_fields 5 4 h.count small,
)

-- What `Parse` makes of the first two bytes and the length word.
abbrev pub header_of : ℕ → ℕ → ℕ → CommonHeader
header_of first packet_type words = record {
  version = first >>> 6;
  padding = not (bit_and (first >>> 4) 0x01 == 0);
  count = bit_and first 0x1F;
  packet_type = packet_type;
  length = u16 ((words + 1) <<< 2);
}

pub parse-inside :
    (io : ByteIo) (fresh : CommonHeader) (b : Buffer) (base size : ℕ)
    → header_size ≤ size
    → base + 4 ≤ b.size
    → parse io b base size fresh
      ≡ done (
        header_size,
        header_of
            (b.bytes base)
            (b.bytes (base + 1))
            (io.read_u16 (b.bytes (base + 2)) (b.bytes (base + 2 + 1))),
      )
unfolding parse
parse-inside io fresh b base size h4 room = rw (
  ltb-false size header_size h4,
  load-inside b base (omega arith),
  load-inside b (base + 1) (omega arith),
  read16-inside io b (base + 2) (omega arith),
)

header_of-first_byte :
    (h : CommonHeader)
    → h.count < 32
    → 4 ≤ h.length
    → h.length < 2 ^ 16
    → h.length % 4 ≡ 0
    → header_of (first_byte h) h.packet_type (words h)
      ≡ record h { version = 2; padding = leb 16 h.count }
header_of-first_byte h small words_left fits whole = ground (
  arith,
  first_byte_lem h small,
  bit_and_mask 5 (first_byte h),
  bit_and_mask 1 (first_byte h / 16),
)

module _ (io : ByteIo) (h : CommonHeader) (b : Buffer) (base : ℕ) where
  pub header_bytes :
      ((with_header io h b base).bytes base ≡ first_byte h)
      × ((with_header io h b base).bytes (base + 1) ≡ h.packet_type)
      × ((with_header io h b base).bytes (base + 2) ≡ (io.write_u16 (words h)).0)
      × ((with_header io h b base).bytes (base + 2 + 1) ≡ (io.write_u16 (words h)).1)
  header_bytes = ground arith

-- A header that is written is read back, but for the padding flag: the bit that is read for it
-- is the top bit of the count, not the bit that `Serialize` sets. (The version comes back as 2.)
header_parse-serialize :
    (io : ByteIo) (h fresh : CommonHeader) (b : Buffer) (base size : ℕ)
    → IsBigEndian io
    → header_size ≤ size
    → base + 4 ≤ b.size
    → h.count < 32
    → 4 ≤ h.length
    → h.length < 2 ^ 16
    → h.length % 4 ≡ 0
    → (b' : Buffer) × (serialize io h b base size ≡ done (header_size, b'))
      × (parse io b' base size fresh
          ≡ done (header_size, record h { version = 2; padding = leb 16 h.count }))
header_parse-serialize io h fresh b base size big h4 room small words_left fits whole =
    let (e0, e1, e2, e3) = header_bytes io h b base in
    (
      with_header io h b base,
      serialize-with_header io h b base size h4 room,
      parse-inside io fresh (with_header io h b base) base size h4 room
          ∙ rw (e0, e1, e2, e3, read_u16-write_u16 io big (words h) (omega arith))
              (ap (λ x. done (header_size, x))
                (header_of-first_byte h small words_left fits whole)),
    )
