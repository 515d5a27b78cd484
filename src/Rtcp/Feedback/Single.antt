-- ===== src/Rtcp/Feedback/Single.antt =====
-- The feedback for one packet, as the session sends it.
use spadia.Common.{
  ℕ, ◌+◌, ◌-◌, ◌*◌, ◌/◌, ◌%◌, ◌^◌, ◌≤◌, ◌<◌, ◌≡◌, refl, ◌∙◌, ap, pos, negsuc, true, false, [], ltb,
  leb, leb-false, ne→==, ◌==◌, if◌then◌else◌, u16, u32, done, fault, signed_overflow, arith,
  bit_and, inl, inr, Bool-cases, ==→eq, ==-false→ne, ltb-false→le, lt→ltb, ltb-false,
}
use spadia.Common.Bits.{bit_and_mask}
use spadia.Common.Dict.{insert}
use spadia.Memory.{
  Buffer, ByteIo, IsBigEndian, malloc, load, store, read8, read16, read32, write8, write16, write32,
}
use spadia.Memory.Access.{stored, stored16, stored32}
use spadia.Memory.Endian.{read_u16-write_u16, read_u32-write_u32}
use spadia.Rtcp.Header
use spadia.Rtcp.TransportCc
use spadia.Rtcp.TransportCc.{
  TransportCc, Scan, to_int, negate, delta_of, is_small, next_time, write_reference, scan_received,
  scan, chunk_bits, drop, write_chunks, write_delta, write_deltas, pad_loop, serialize_packets,
}
use spadia.Rtcp.Feedback.{Nack, Field, nack, transport_cc, parse_nack, serialize}

-- A generic NACK is 20 bytes, and its three fields are read back from behind the header and SSRCs.
pub parse_nack-serialize :
    (io : ByteIo) (junk : ℕ → ℕ) (ssrc : ℕ) (n : Nack)
    → IsBigEndian io
    → ssrc < 2 ^ 32
    → n.ssrc < 2 ^ 32
    → n.fsn < 2 ^ 16
    → n.blp < 2 ^ 16
    → (b : Buffer) × (serialize io junk ssrc (nack n) ≡ done (20, b))
      × (read32 io b 8 ≡ done ssrc)
      × (parse_nack io b 12 ≡ done n)
unfolding serialize parse_nack Header.serialize malloc write16 write32 store load read16 read32
parse_nack-serialize io junk ssrc n big hs h1 h2 h3 = (
  _,
  refl,
  rw (read_u32-write_u32 io big ssrc hs),
  rw (
    read_u32-write_u32 io big n.ssrc h1,
    read_u16-write_u16 io big n.fsn h2,
    read_u16-write_u16 io big n.blp h3,
  ),
)

-- The 23 bits of the reference time that are kept, and what is above them.
abbrev pub kept : ℕ → ℕ
kept time = time / 64000 % 2 ^ 23

abbrev pub epoch : ℕ → ℕ
epoch time = time / 64000 / 2 ^ 23

-- What the difference to the reference time comes to in units of 250 us, cut to 32 bits.
first_difference :
    (time : ℕ)
    → (time - kept time * 64000) / 250 % 2 ^ 32 ≡ epoch time % 2 * 2 ^ 31 + time % 64000 / 250
first_difference time = omega arith

-- The delta of a first packet: the rest of the reference time, and the lowest bit of the epoch.
first_delta :
    (time : ℕ)
    → delta_of (kept time * 64000) time
      ≡ done (
          if epoch time % 2 == 0
          then pos (time % 64000 / 250)
          else negsuc (2 ^ 31 - 1 - time % 64000 / 250))
unfolding delta_of to_int negate
first_delta time = elim (Bool-cases (ltb (kept time * 64000) time)) [
  | inr same ↦
      let none_left : time ≤ kept time * 64000 = ltb-false→le _ _ same in
      let rest : time % 64000 / 250 ≡ 0 = omega arith in
      let even : epoch time % 2 ≡ 0 = omega arith in
      let difference : (kept time * 64000 - time) / 250 ≡ 0 = omega arith in
      rw (same, rest, even, difference)
  | inl later ↦
      rw (later, first_difference time)
        (elim (Bool-cases (epoch time % 2 == 0)) [
          | inl e ↦
              let even : epoch time % 2 ≡ 0 = ==→eq _ _ e in
              rw (even, lt→ltb (0 * 2 ^ 31 + time % 64000 / 250) (2 ^ 31) (omega arith))
                (ap (λ d. done (pos d)) (omega arith))
          | inr e ↦
              let odd : epoch time % 2 ≡ 1 = omega (arith, ==-false→ne _ _ e) in
              rw (odd, ltb-false (1 * 2 ^ 31 + time % 64000 / 250) (2 ^ 31) (omega arith))
                (ap (λ d. done (negsuc d)) (omega arith))
        ])
]

module _ (io : ByteIo) (junk : ℕ → ℕ) (ssrc count num time : ℕ) (received : 0 < time) where
  -- The feedback for the one packet `num`.
  abbrev pub single : Field
  single = transport_cc (
      TransportCc.insert_packet
        (record { reference_time = 0; feedback_packet_count = count; packets = [] }) num time)

  reference : bit_and (time / 64000) 0x7FFFFF ≡ kept time
  reference = bit_and_mask 23 (time / 64000)

  not_missed : (time == 0) ≡ false
  not_missed = ne→== time 0 (omega arith)

  -- In every second epoch of 2 ^ 23 * 64 ms (the lowest bit of the time above the 23 bits kept is
  -- set) the delta of the packet is below -8,000,000, and its product with 250 overflows `int`.
  pub single_overflows : epoch time % 2 ≡ 1 → serialize io junk ssrc single ≡ fault signed_overflow
  unfolding serialize TransportCc.insert_packet TransportCc.serialize scan_received write_reference
      next_time insert malloc write16 write32 store
  single_overflows odd = rw (
    not_missed,
    reference,
    first_delta time,
    odd,
    leb-false ((2 ^ 31 - 1 - time % 64000 / 250 + 1) * 250) (2 ^ 31) (omega arith),
  )

  -- The block up to the chunk.
  abbrev chunked : ℕ → Buffer
  chunked chunk =
      let block : Buffer = record { size = 1200; bytes = junk } in
      let named =
        stored16 io (stored16 io (stored32 io (stored32 io block 4 0) 8 ssrc) 12 (u16 num)) 14 1 in
      stored16 io (stored16 io (stored32 io named 16 (u32 (kept time * 2 ^ 8))) 19 count) 20 chunk

  abbrev headed : Buffer → Buffer
  headed b = stored16 io (stored (stored b 0 0x8F) 1 205) 2 5

  abbrev pub left : ℕ
  left = time % 64000 / 250

  abbrev small_block : Buffer
  small_block = headed (stored (stored (chunked 0xD000) 22 (io.write_u8 left)) 23 0)

  abbrev large_block : Buffer
  large_block = headed (stored16 io (chunked 0xE000) 22 (u16 left))

  serialize-small :
      epoch time % 2 ≡ 0
      → leb left 127 ≡ true
      → serialize io junk ssrc single ≡ done (24, small_block)
  unfolding serialize Header.serialize TransportCc.insert_packet TransportCc.serialize scan_received
      write_reference next_time insert malloc write8 write16 write32 store is_small
  serialize-small even small = rw (
    not_missed,
    reference,
    first_delta time,
    even,
    lt→ltb (left * 250) (2 ^ 31) (omega arith),
    small,
  )

  serialize-large :
      epoch time % 2 ≡ 0
      → leb left 127 ≡ false
      → serialize io junk ssrc single ≡ done (24, large_block)
  unfolding serialize Header.serialize TransportCc.insert_packet TransportCc.serialize scan_received
      write_reference next_time insert malloc write8 write16 write32 store is_small
  serialize-large even large = rw (
    not_missed,
    reference,
    first_delta time,
    even,
    lt→ltb (left * 250) (2 ^ 31) (omega arith),
    large,
  )

  -- The fields in front of the delta: a transport-wide feedback header of length 24, the SSRC, the
  -- number, a count of one, the 24 bits of the reference time and 8 zeros, and a chunk.
  abbrev pub HasFields : ℕ → Buffer → Type 0
  HasFields chunk b =
      (load b 0 ≡ done 0x8F)
      × (load b 1 ≡ done 205)
      × (read16 io b 2 ≡ done 5)
      × (read32 io b 8 ≡ done ssrc)
      × (read16 io b 12 ≡ done num)
      × (read16 io b 14 ≡ done 1)
      × (read32 io b 16 ≡ done (kept time * 2 ^ 8))
      × (read16 io b 20 ≡ done chunk)

  module _ (big : IsBigEndian io) (ssrc_fits : ssrc < 2 ^ 32) (num_fits : num < 2 ^ 16)
      (count_fits : count < 2 ^ 8) where
    reference_read :
        io.read_u32
          (io.write_u32 (u32 (kept time * 2 ^ 8))).0
          (io.write_u32 (u32 (kept time * 2 ^ 8))).1
          (io.write_u32 (u32 (kept time * 2 ^ 8))).2
          (io.write_u16 count).0
        ≡ kept time * 2 ^ 8
    reference_read =
        rw
          (
            big.write_u32_lem (u32 (kept time * 2 ^ 8)) (omega arith),
            big.write_u16_lem count (omega arith),
          )
          (big.read_u32_lem _ _ _ _ (omega arith) (omega arith) (omega arith) (omega arith)
            ∙ omega arith)

    -- Whatever stands behind the chunk.
    headed-HasFields :
        (chunk : ℕ) (behind : ℕ → ℕ)
        → chunk < 2 ^ 16
        → ((i : ℕ) → i < 22 → behind i ≡ (chunked chunk).bytes i)
        → HasFields chunk (headed (record { size = 1200; bytes = behind }))
    unfolding load read16 read32
    headed-HasFields chunk behind fits same =
        rw
          (
            same 8 (omega arith),
            same 9 (omega arith),
            same 10 (omega arith),
            same 11 (omega arith),
            same 12 (omega arith),
            same 13 (omega arith),
            same 14 (omega arith),
            same 15 (omega arith),
            same 16 (omega arith),
            same 17 (omega arith),
            same 18 (omega arith),
            same 19 (omega arith),
            same 20 (omega arith),
            same 21 (omega arith),
          )
          (
            refl,
            refl,
            ap done (read_u16-write_u16 io big 5 (omega arith)),
            ap done (read_u32-write_u32 io big ssrc ssrc_fits),
            ap done (read_u16-write_u16 io big (u16 num) (omega arith) ∙ omega arith),
            ap done (read_u16-write_u16 io big 1 (omega arith)),
            ap done reference_read,
            ap done (read_u16-write_u16 io big chunk fits),
          )

    small_block-HasFields : HasFields 0xD000 small_block
    small_block-HasFields =
        headed-HasFields 0xD000 _ (omega arith)
          (λ i h. rw (ne→== i 23 (omega arith), ne→== i 22 (omega arith)))

    large_block-HasFields : HasFields 0xE000 large_block
    large_block-HasFields =
        headed-HasFields 0xE000 _ (omega arith)
          (λ i h. rw (ne→== i 23 (omega arith), ne→== i 22 (omega arith)))

    -- In the other epochs the feedback is 24 bytes: a transport-wide feedback header of length 24, the
    -- SSRC, the number, a count of one, the 24 bits of the reference time, a chunk with the one symbol,
    -- and the rest of the time in units of 250 us, in a byte up to 127 and else in two. The byte of
    -- the feedback packet count is 0 whatever the count is.
    pub single_written :
        epoch time % 2 ≡ 0
        → (b : Buffer) × (serialize io junk ssrc single ≡ done (24, b))
          × HasFields (if leb left 127 then 0xD000 else 0xE000) b
          × ((if leb left 127 then read8 io b 22 else read16 io b 22) ≡ done left)
    unfolding read8 read16 load
    single_written even = elim (Bool-cases (leb left 127)) [
      | inl small ↦ (
        small_block,
        serialize-small even small,
        rw small small_block-HasFields,
        rw (small, big.write_u8_lem left (omega arith))
            (ap done (big.read_u8_lem left (omega arith))),
      )
      | inr large ↦ (
        large_block,
        serialize-large even large,
        rw large large_block-HasFields,
        rw large (ap done (read_u16-write_u16 io big (u16 left) (omega arith) ∙ omega arith)),
      )
    ]
