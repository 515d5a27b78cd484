-- ===== src/Rtp/Parse/Steps.antt =====
-- `RTPPacket::Parse`, rtp_packet.cpp, step by step.
use spadia.Common.{
  ℕ, ◌+◌, ◌-◌, ◌*◌, ◌≤◌, ◌≡◌, refl, Bool, true, false, not, List, ltb, ◌==◌, if◌then◌else◌, bit_and,
  done, ◌>>=◌, Yields, Yields-bind, Yields-map, inl, inr, Bool-cases, ltb-false→le, arith,
}
use spadia.Memory.{Buffer, ByteIo}
use spadia.Memory.Access.{load-inside, read16-inside, read32-inside}
use spadia.Rtp.Packet.{RtpExtension, RtpPacket}
use spadia.Rtp.Parse.{
  read_entries, finish, parse_extensions, parse_body, parse_padding, parse_header,
}
use spadia.Rtp.Parse.Entries.{Each, HasNumber, read_entries-Yields}

-- What an accepted packet looks like: `p` is the packet after the fixed header.
pub record Accepted (p : RtpPacket) (size padding end : ℕ) (p' : RtpPacket) : Type 0 where
  pub layout : p'.payload_offset + p'.payload_size + p'.padding_size ≡ size
  pub after_header : p'.payload_offset ≡ end
  pub padded : p'.padding_size ≡ padding
  pub numbers : Each (HasNumber size) p'.exts
  pub same_bytes : p'.bytes ≡ p.bytes
  pub same_size : p'.size ≡ p.size
  pub same_ssrc : p'.ssrc ≡ p.ssrc
  pub same_seq_num : p'.seq_num ≡ p.seq_num
  pub same_timestamp : p'.timestamp ≡ p.timestamp
  pub same_payload_type : p'.payload_type ≡ p.payload_type
  pub same_maker : p'.maker ≡ p.maker

abbrev pub Answer : RtpPacket → ℕ → ℕ → ℕ → Bool × RtpPacket → Type 0
Answer p size padding end r = r.0 ≡ true → Accepted p size padding end r.1

finish-Yields :
    (p : RtpPacket) (size : ℕ)
    → Each (HasNumber size) p.exts
    → Yields (Answer p size p.padding_size p.payload_offset) (finish p size)
unfolding finish
finish-Yields p size h = elim (Bool-cases (ltb size (p.payload_offset + p.padding_size))) [
  | inl over ↦ rw over (λ e. cc)
  | inr inside ↦ rw inside (λ e. record {
    layout = omega (arith, ltb-false→le _ _ inside);
    after_header = refl;
    padded = refl;
    numbers = h;
    same_bytes = refl;
    same_size = refl;
    same_ssrc = refl;
    same_seq_num = refl;
    same_timestamp = refl;
    same_payload_type = refl;
    same_maker = refl;
  })
]

Accepted-later :
    (p : RtpPacket) (exts : List (ℕ × RtpExtension)) (from n : ℕ) {size padding end : ℕ}
    {p' : RtpPacket}
    → Accepted
        (record p { exts = exts; payload_offset = from; padding_size = n })
        size
        padding
        end
        p'
    → Accepted p size padding end p'
Accepted-later p exts from n a = record {
  layout = a.layout;
  after_header = a.after_header;
  padded = a.padded;
  numbers = a.numbers;
  same_bytes = a.same_bytes;
  same_size = a.same_size;
  same_ssrc = a.same_ssrc;
  same_seq_num = a.same_seq_num;
  same_timestamp = a.same_timestamp;
  same_payload_type = a.same_payload_type;
  same_maker = a.same_maker;
}

-- The padding that the last byte announces.
abbrev pub announced : Buffer → ℕ → Bool → ℕ
announced buf size has_padding = if has_padding then buf.bytes (size - 1) else 0

-- The packet after the fixed header, its `payloadOffset_` not set yet.
abbrev pub header_read : ByteIo → Buffer → RtpPacket → RtpPacket
header_read io buf p = record p {
  maker = not (bit_and (buf.bytes 1) 0x80 == 0);
  payload_type = bit_and (buf.bytes 1) 0x7f;
  seq_num = io.read_u16 (buf.bytes 2) (buf.bytes 3);
  timestamp = io.read_u32 (buf.bytes 4) (buf.bytes 5) (buf.bytes 6) (buf.bytes 7);
  ssrc = io.read_u32 (buf.bytes 8) (buf.bytes 9) (buf.bytes 10) (buf.bytes 11);
}

-- Where the CSRC list ends that the first byte `b0` announces.
abbrev pub header_end : ℕ → ℕ
header_end b0 = 12 + bit_and b0 0x0f * 4

-- Where the payload starts behind a fixed header that ends at `start`: behind the extensions, whose
-- words are counted after the profile.
abbrev pub headers_end : ByteIo → Buffer → ℕ → Bool → ℕ
headers_end io buf start has_ext =
    if has_ext
    then start + 4 + io.read_u16 (buf.bytes (start + 2)) (buf.bytes (start + 2 + 1)) * 4
    else start

module _ (io : ByteIo) (buf : Buffer) (size : ℕ) (inside : size ≤ buf.size) where
  parse_extensions-Yields :
      (p : RtpPacket)
      → Each (HasNumber size) p.exts
      → Yields
          (Answer p size p.padding_size (headers_end io buf p.payload_offset true))
          (parse_extensions io p buf size)
  unfolding parse_extensions
  parse_extensions-Yields p old = elim (Bool-cases (ltb size (p.payload_offset + 4))) [
    | inl over ↦ rw over (λ e. cc)
    | inr room ↦
        let room' = ltb-false→le _ _ room in
        rw
          (
            room,
            read16-inside io buf p.payload_offset (omega arith),
            read16-inside io buf (p.payload_offset + 2) (omega arith),
          )
          (rest (io.read_u16 _ _) (io.read_u16 _ _) room')
  ]
    where
      rest :
          (profile words : ℕ)
          → p.payload_offset + 4 ≤ size
          → Yields (Answer p size p.padding_size (p.payload_offset + 4 + words * 4)) (
              if ltb size (p.payload_offset + 4 + words * 4)
              then done (false, p)
              else (read_entries buf profile (p.payload_offset + 4) (words * 4) p.exts >>= λ exts.
                  finish
                    (record p { exts = exts; payload_offset = p.payload_offset + 4 + words * 4 })
                    size))
      rest profile words room = elim (Bool-cases (ltb size (p.payload_offset + 4 + words * 4))) [
        | inl over ↦ rw over (λ e. cc)
        | inr fits ↦ rw fits (
            Yields-bind (Each (HasNumber size))
              (Answer p size p.padding_size (p.payload_offset + 4 + words * 4)) _ _
              (read_entries-Yields buf profile (p.payload_offset + 4) words size p.exts inside
                (ltb-false→le _ _ fits) old)
              λ exts each.
                Yields-map (Answer _ size p.padding_size (p.payload_offset + 4 + words * 4))
                  (Answer p size p.padding_size (p.payload_offset + 4 + words * 4)) _
                  (finish-Yields
                    (record p { exts = exts; payload_offset = p.payload_offset + 4 + words * 4 })
                    size each)
                  λ r f e.
                    Accepted-later p exts (p.payload_offset + 4 + words * 4) p.padding_size (f e))
      ]

  parse_body-Yields :
      (p : RtpPacket) (has_ext : Bool)
      → Each (HasNumber size) p.exts
      → Yields
          (Answer p size p.padding_size (headers_end io buf p.payload_offset has_ext))
          (parse_body io p buf size has_ext)
  unfolding parse_body
  parse_body-Yields p true old = parse_extensions-Yields p old
  parse_body-Yields p false old = finish-Yields p size old

  with_padding :
      (p : RtpPacket) (has_ext : Bool) (n : ℕ)
      → Each (HasNumber size) p.exts
      → Yields
          (Answer p size n (headers_end io buf p.payload_offset has_ext))
          (parse_body io (record p { padding_size = n }) buf size has_ext)
  with_padding p has_ext n old =
      Yields-map
        (Answer (record p { padding_size = n }) size n
          (headers_end io buf p.payload_offset has_ext))
        (Answer p size n (headers_end io buf p.payload_offset has_ext)) _
        (parse_body-Yields (record p { padding_size = n }) has_ext old)
        λ r f e. Accepted-later p p.exts p.payload_offset n (f e)

  pub parse_padding-Yields :
      (p : RtpPacket) (has_padding has_ext : Bool)
      → 1 ≤ size
      → Each (HasNumber size) p.exts
      → Yields
          (Answer p size
            (announced buf size has_padding)
            (headers_end io buf p.payload_offset has_ext))
          (parse_padding io p buf size has_padding has_ext)
  unfolding parse_padding
  parse_padding-Yields p false has_ext h old = with_padding p has_ext 0 old
  parse_padding-Yields p true has_ext h old =
      rw (load-inside buf (size - 1) (omega arith)) (elim (Bool-cases (buf.bytes (size - 1) == 0)) [
        | inl none_given ↦ rw none_given (λ e. cc)
        | inr given ↦ rw given (with_padding p has_ext (buf.bytes (size - 1)) old)
      ])

  pub parse_header-inside :
      (p : RtpPacket) (b0 : ℕ)
      → 12 ≤ size
      → parse_header io p buf size b0 ≡ (
          if ltb size (header_end b0)
          then done (true, header_read io buf p)
          else parse_padding io
              (record (header_read io buf p) { payload_offset = header_end b0 })
              buf
              size
              (not (bit_and b0 0x20 == 0))
              (not (bit_and b0 0x10 == 0)))
  unfolding parse_header
  parse_header-inside p b0 h = rw (
    load-inside buf 1 (omega arith),
    read16-inside io buf 2 (omega arith),
    read32-inside io buf 4 (omega arith),
    read32-inside io buf 8 (omega arith),
  )
