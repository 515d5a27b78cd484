-- ===== src/Rtp/Parse.antt =====
-- `RTPPacket::Parse`. Sizes and offsets are `int` or `size_t` values that stay far below 2 ^ 31, so
-- they are plain numbers; a `return -1` is the `true` that it converts to.
pub mod Entries
pub mod Steps
pub mod Outcome
use spadia.Common.{
  ℕ, zero, suc, ◌+◌, ◌-◌, ◌*◌, Bool, true, false, not, ◌&&◌, ◌||◌, List, ltb, ◌==◌, if◌then◌else◌,
  ◌>>>◌, bit_and, Run, done, stuck, ◌>>=◌,
}
use spadia.Common.Dict.{insert}
use spadia.Memory.{Buffer, ByteIo, load, read16, read32}
use spadia.Rtp.Packet.{RtpExtension, RtpPacket}

abbrev pub fixed_header_size : ℕ
fixed_header_size = 12

abbrev pub rtp_version : ℕ
rtp_version = 2

abbrev pub one_byte_profile : ℕ
one_byte_profile = 0xBEDE

abbrev pub two_byte_profile : ℕ
two_byte_profile = 0x1000

-- `extension_header_length`
abbrev pub header_length : Bool → ℕ
header_length one_byte = if one_byte then 1 else 2

-- The entry at `pos`, whose first byte is `b`.
unfoldable pub read_entry : Buffer → Bool → ℕ → ℕ → ℕ → Run RtpExtension
read_entry buf true ext_offset pos b =
    done (record { id = b >>> 4; length = 1 + bit_and b 0xf; offset = ext_offset + 1 })
read_entry buf false ext_offset pos b = do
  length ← load buf (ext_offset + pos + 1)
  done (record { id = b; length = length; offset = ext_offset + 2 })

-- The `break` on a reserved id, which only the one-byte form has.
unfoldable pub ends_entries : Bool → RtpExtension → Bool
ends_entries one_byte e = one_byte && (e.id == 15 || (e.id == 0 && not (e.length == 1)))

-- The `while` loop at `extensions_size_ = pos`.
unfoldable pub entries_loop :
    Buffer → Bool → ℕ → ℕ → ℕ → ℕ → List (ℕ × RtpExtension) → Run (List (ℕ × RtpExtension))
entries_loop buf one_byte ext_offset capacity zero pos exts = stuck
entries_loop buf one_byte ext_offset capacity (suc fuel) pos exts =
    let round = load buf (ext_offset + pos) >>= λ b.
    let skip = entries_loop buf one_byte ext_offset capacity fuel (pos + 1) exts in
    let entry = read_entry buf one_byte ext_offset pos b >>= λ e.
    let exts' = insert e.id e exts in
    let next = pos + header_length one_byte + e.length in
    let rest = entries_loop buf one_byte ext_offset capacity fuel next exts' in
    if ends_entries one_byte e || ltb capacity next then done exts' else rest in
    if b == 0 then skip else entry in
    if ltb (pos + header_length one_byte) capacity then round else done exts

-- The extensions of a profile: each round takes a byte at least, so `capacity + 1` rounds do.
unfoldable pub read_entries :
    Buffer → ℕ → ℕ → ℕ → List (ℕ × RtpExtension) → Run (List (ℕ × RtpExtension))
read_entries buf profile ext_offset capacity exts =
    if not (profile == one_byte_profile) && not (profile == two_byte_profile)
    then done exts
    else entries_loop buf (profile == one_byte_profile) ext_offset capacity (capacity + 1) 0 exts

-- From the last size check on.
unfoldable pub finish : RtpPacket → ℕ → Run (Bool × RtpPacket)
finish p size =
    if ltb size (p.payload_offset + p.padding_size)
    then done (false, p)
    else done (true, record p { payload_size = size - p.payload_offset - p.padding_size })

module _ (io : ByteIo) where
  unfoldable pub parse_extensions : RtpPacket → Buffer → ℕ → Run (Bool × RtpPacket)
  parse_extensions p buf size =
      let ext_offset = p.payload_offset + 4 in
      if ltb size ext_offset then done (false, p) else do
        profile ← read16 io buf p.payload_offset
        words ← read16 io buf (p.payload_offset + 2)
        let capacity = words * 4
        if ltb size (ext_offset + capacity) then done (false, p) else do
          exts ← read_entries buf profile ext_offset capacity p.exts
          finish (record p { exts = exts; payload_offset = ext_offset + capacity }) size

  unfoldable pub parse_body : RtpPacket → Buffer → ℕ → Bool → Run (Bool × RtpPacket)
  parse_body p buf size has_ext = if has_ext then parse_extensions p buf size else finish p size

  unfoldable pub parse_padding : RtpPacket → Buffer → ℕ → Bool → Bool → Run (Bool × RtpPacket)
  parse_padding p buf size has_padding has_ext =
      if has_padding
      then (load buf (size - 1) >>= λ n.
          let p' : RtpPacket = record p { padding_size = n } in
          if n == 0 then done (false, p') else parse_body p' buf size has_ext)
      else parse_body (record p { padding_size = 0 }) buf size has_ext

  -- The fixed header, for a packet whose version is right.
  unfoldable pub parse_header : RtpPacket → Buffer → ℕ → ℕ → Run (Bool × RtpPacket)
  parse_header p buf size b0 = do
    let has_padding = not (bit_and b0 0x20 == 0)
    let has_ext = not (bit_and b0 0x10 == 0)
    let number_cc = bit_and b0 0x0f
    b1 ← load buf 1
    seq ← read16 io buf 2
    ts ← read32 io buf 4
    ssrc ← read32 io buf 8
    let p' : RtpPacket = record p {
      maker = not (bit_and b1 0x80 == 0);
      payload_type = bit_and b1 0x7f;
      seq_num = seq;
      timestamp = ts;
      ssrc = ssrc;
    }
    if ltb size (fixed_header_size + number_cc * 4)
        then done (true, p')
        else parse_padding (record p' { payload_offset = fixed_header_size + number_cc * 4 }) buf
            size has_padding has_ext

  unfoldable pub parse : RtpPacket → Buffer → ℕ → Run (Bool × RtpPacket)
  parse p buf size =
      let p' : RtpPacket = record p { bytes = buf; size = size } in
      if ltb size fixed_header_size then done (true, p') else do
        b0 ← load buf 0
        if b0 >>> 6 == rtp_version then parse_header p' buf size b0 else done (true, p')
