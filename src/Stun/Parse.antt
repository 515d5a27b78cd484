-- ===== src/Stun/Parse.antt =====
-- `StunPacket::Parse`.
pub mod Bounds
use spadia.Common.{
  ℕ, zero, suc, ◌+◌, List, [], Option, none, some, ltb, ◌==◌, if◌then◌else◌, bit_and, Run, done,
  stuck, ◌>>=◌,
}
use spadia.Memory.{Buffer, ByteIo, read16, slice}
use spadia.Tools.{pad32}
use spadia.Stun.Packet.{StunPacket}

abbrev pub username_type : ℕ
username_type = 0x0006

-- `StunHeaderSize`
abbrev pub header_size : ℕ
header_size = 20

-- `AttrHeaderSize`
abbrev pub attr_header_size : ℕ
attr_header_size = 4

-- The `switch` on the type of the attribute whose value lies at `i`.
unfoldable pub take_attribute : StunPacket → Buffer → ℕ → ℕ → ℕ → Run StunPacket
take_attribute p b attr_type i attr_len =
    if attr_type == username_type
    then (slice b i attr_len >>= λ name. done (record p { username = name }))
    else done p

module _ (io : ByteIo) where
  -- The loop over the attributes; `none` is the null pointer.
  unfoldable pub attributes : ℕ → StunPacket → Buffer → ℕ → ℕ → Run (Option StunPacket)
  attributes zero p b size i = stuck
  attributes (suc fuel) p b size i =
      let round = read16 io b i >>= λ attr_type. read16 io b (i + 2) >>= λ attr_len.
      let at = i + attr_header_size in
      let next = take_attribute p b attr_type at attr_len >>= λ p'.
      attributes fuel p' b size (at + pad32 attr_len) in
      if ltb size (at + attr_len) then done none else next in
      if ltb (i + 4) size then round else done (some p)

  -- A round takes 4 bytes at least. The members that `StunPacket()` leaves open are all set.
  unfoldable pub parse : Buffer → ℕ → Run (Option StunPacket)
  parse b size = do
    wd ← read16 io b 0
    id ← slice b 8 12
    attributes (size + 1)
        (record {
          username = [];
          method = bit_and wd 0xFEEF;
          kind = bit_and wd 0x0110;
          trans_id = id;
        })
        b size header_size
