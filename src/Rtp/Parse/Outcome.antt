-- ===== src/Rtp/Parse/Outcome.antt =====
-- What `RTPPacket::Parse` does with any packet: the refusals, the acceptance, and what is read.
use spadia.Common.{
  ℕ, ◌+◌, ◌*◌, ◌/◌, ◌%◌, ◌^◌, ◌≤◌, ◌≡◌, refl, ◌⊎◌, inl, inr, Bool, true, not, ◌||◌, Option, some,
  ltb, ◌==◌, if◌then◌else◌, bit_and, done, Yields, Yields-done, Option-cases, none, ◌∙◌, Bool-cases,
  ltb-false, ltb-false→le, ==→eq, arith,
}
use native.Mathlib.Decide.{dec_le, ℕ_discrete}
use spadia.Common.Bits.{bit_and_mask, bit_and_bit}
use spadia.Common.Dict.{lookup, lookup-All}
use spadia.Memory.{Buffer, IsBytes, ByteIo, IsBigEndian}
use spadia.Memory.Access.{load-inside, read16-inside}
use spadia.Rtp.Packet.{RtpPacket, new_packet, get_transport_cc_num}
use spadia.Rtp.Parse.{parse_padding, parse}
use spadia.Rtp.Parse.Entries.{HasNumber}
use spadia.Rtp.Parse.Steps.{
  Accepted, Answer, announced, header_read, header_end, headers_end, parse_padding-Yields,
  parse_header-inside,
}

-- A packet that is long enough for its fixed header and its CSRC list, of version 2.
abbrev pub HasHeader : Buffer → ℕ → Type 0
HasHeader buf size = (12 ≤ size) × (buf.bytes 0 / 2 ^ 6 ≡ 2) × (header_end (buf.bytes 0) ≤ size)

abbrev pub has_padding : Buffer → Bool
has_padding buf = not (bit_and (buf.bytes 0) 0x20 == 0)

-- Where the payload starts: behind the CSRC list, and with the X bit behind the extensions.
abbrev pub payload_start : ByteIo → Buffer → ℕ
payload_start io buf =
    headers_end io buf (header_end (buf.bytes 0)) (not (bit_and (buf.bytes 0) 0x10 == 0))

module _ (io : ByteIo) (junk : RtpPacket) (now : ℕ) (buf : Buffer) (size : ℕ) where
  abbrev pub opened : RtpPacket
  opened = record (new_packet junk now) { bytes = buf; size = size }

  -- Where the header is in order, the rest of the parse answers.
  parse_at_header :
      size ≤ buf.size
      → HasHeader buf size
      → parse io (new_packet junk now) buf size
        ≡ parse_padding io
            (record (header_read io buf opened) { payload_offset = header_end (buf.bytes 0) })
            buf
            size
            (has_padding buf)
            (not (bit_and (buf.bytes 0) 0x10 == 0))
  unfolding parse
  parse_at_header inside (long, version, list) = rw (
    ltb-false size 12 long,
    load-inside buf 0 (omega arith),
    version,
    parse_header-inside io buf size inside opened (buf.bytes 0) long,
    ltb-false size (header_end (buf.bytes 0)) list,
  )

  -- `Parse` refuses no packet for its header: where that is too short, of another version or
  -- with a CSRC list that does not fit, it answers `true`. It has then set `data_` and `size_`
  -- alone, or, if only the list does not fit, the fields of the fixed header too.
  pub parse_without_header :
      size ≤ buf.size
      → ¬ HasHeader buf size
      → parse io (new_packet junk now) buf size
        ≡ done (
          true,
          if ltb size 12 || not (buf.bytes 0 / 2 ^ 6 == 2)
              then opened
              else header_read io buf opened,
        )
  unfolding parse
  parse_without_header inside bad = elim (Bool-cases (ltb size 12)) [
    | inl short ↦ rw short
    | inr long ↦
        let long' = ltb-false→le _ _ long in
        rw (long, load-inside buf 0 (omega arith))
          (elim (Bool-cases (buf.bytes 0 / 2 ^ 6 == 2)) [
            | inr other ↦ rw other
            | inl version ↦
                rw (version, parse_header-inside io buf size inside opened (buf.bytes 0) long')
                  (elim (Bool-cases (ltb size (header_end (buf.bytes 0)))) [
                    | inl over ↦ rw over
                    | inr fits ↦ absurd (bad (long', ==→eq _ _ version, ltb-false→le _ _ fits))
                  ])
          ])
  ]

  parse_with_header :
      size ≤ buf.size
      → HasHeader buf size
      → Yields
          (Answer
            (record (header_read io buf opened) { payload_offset = header_end (buf.bytes 0) })
            size
            (announced buf size (has_padding buf))
            (payload_start io buf))
          (parse io (new_packet junk now) buf size)
  unfolding new_packet
  parse_with_header inside ok = rw (parse_at_header inside ok) (
      parse_padding-Yields io buf size inside
        (record (header_read io buf opened) { payload_offset = header_end (buf.bytes 0) })
        (has_padding buf) _ (omega (arith, ok.0)) tt)

HasHeader-cases : (buf : Buffer) (size : ℕ) → HasHeader buf size ⊎ ¬ HasHeader buf size
HasHeader-cases buf size = elim (dec_le 12 size) [
  | no short ↦ inr (λ h. short h.0)
  | yes long ↦ elim (ℕ_discrete (buf.bytes 0 / 2 ^ 6) 2) [
    | no other ↦ inr (λ h. other h.1)
    | yes version ↦ elim (dec_le (header_end (buf.bytes 0)) size) [
      | no over ↦ inr (λ h. over h.2)
      | yes fits ↦ inl (long, version, fits)
    ]
  ]
]

module _ (io : ByteIo) (junk : RtpPacket) (now : ℕ) (buf : Buffer) (size : ℕ)
    (inside : size ≤ buf.size) where
  -- On any bytes whatever `Parse` returns: it reads nothing outside the packet, and the loop over
  -- the extensions ends.
  pub parse_returns : (r : Bool × RtpPacket) × (parse io (new_packet junk now) buf size ≡ done r)
  parse_returns = elim (HasHeader-cases buf size) [
    | inl good ↦
        let (r, e, _) = Yields-done _ _ (parse_with_header io junk now buf size inside good) in
        (r, e)
    | inr bad ↦ (_, parse_without_header io junk now buf size inside bad)
  ]

  pub parse-Accepted :
      HasHeader buf size
      → {p : RtpPacket} → parse io (new_packet junk now) buf size ≡ done (true, p)
      → Accepted
          (record (header_read io buf (opened io junk now buf size)) {
            payload_offset = header_end (buf.bytes 0);
          })
          size
          (announced buf size (has_padding buf))
          (payload_start io buf)
          p
  parse-Accepted good e = (rw e at (parse_with_header io junk now buf size inside good)) refl

  -- Where `Parse` accepts a packet whose header is in order, its payload starts behind the CSRC list,
  -- and with the X bit behind the four bytes and the words of the extensions that follow it; payload
  -- and padding fill the rest of the packet, and the padding is what the last byte announces (none
  -- without the P bit).
  pub parse_layout :
      HasHeader buf size
      → {p : RtpPacket} → parse io (new_packet junk now) buf size ≡ done (true, p)
      → (p.payload_offset + p.payload_size + p.padding_size ≡ size)
        × (p.payload_offset ≡ payload_start io buf)
        × (p.padding_size ≡ announced buf size (has_padding buf))
  parse_layout good e = let a = parse-Accepted good e in (a.layout, a.after_header, a.padded)

  -- Where `Parse` accepts a packet whose header is in order, the fields are those of the fixed header:
  -- marker and payload type from the second byte, sequence number, timestamp and SSRC in network
  -- byte order.
  pub parse_fields :
      IsBigEndian io
      → IsBytes buf
      → HasHeader buf size
      → {p : RtpPacket} → parse io (new_packet junk now) buf size ≡ done (true, p)
      → let at : ℕ → ℕ = buf.bytes in
        (p.maker ≡ (at 1 / 128 == 1))
        × (p.payload_type ≡ at 1 % 128)
        × (p.seq_num ≡ at 2 * 256 + at 3)
        × (p.timestamp ≡ ((at 4 * 256 + at 5) * 256 + at 6) * 256 + at 7)
        × (p.ssrc ≡ ((at 8 * 256 + at 9) * 256 + at 10) * 256 + at 11)
  parse_fields big bytes good e =
      let a = parse-Accepted good e in
      (
        a.same_maker ∙ marker,
        a.same_payload_type ∙ bit_and_mask 7 (buf.bytes 1),
        a.same_seq_num ∙ big.read_u16_lem _ _ (bytes 2) (bytes 3),
        a.same_timestamp ∙ big.read_u32_lem _ _ _ _ (bytes 4) (bytes 5) (bytes 6) (bytes 7),
        a.same_ssrc ∙ big.read_u32_lem _ _ _ _ (bytes 8) (bytes 9) (bytes 10) (bytes 11),
      )
    where
      marker : not (bit_and (buf.bytes 1) 0x80 == 0) ≡ (buf.bytes 1 / 128 == 1)
      marker = ground (arith, bit_and_bit 7 (buf.bytes 1), bytes 1)

  -- On a packet that `Parse` accepted with its header in order `GetTransportCCNum` returns: it reads
  -- inside the packet, whatever extensions there are.
  get_transport_cc_num_returns :
      HasHeader buf size
      → {p : RtpPacket} → parse io (new_packet junk now) buf size ≡ done (true, p)
      → (id : ℕ) → (num : Option ℕ) × (get_transport_cc_num io p id ≡ done num)
  unfolding get_transport_cc_num
  get_transport_cc_num_returns good {p} e id = elim (Option-cases (lookup id p.exts)) [
    | inl missing ↦ (none, rw missing)
    | inr (x, found) ↦
        let a = parse-Accepted good e in
        let room = lookup-All (HasNumber size) id x p.exts a.numbers found in
        (
          some (io.read_u16 (buf.bytes x.offset) (buf.bytes (x.offset + 1))),
          rw (found, a.same_bytes, read16-inside io buf x.offset (omega arith)),
        )
  ]
