-- ===== src/Stun/Parse/Bounds.antt =====
-- `StunPacket::Parse`, stun_packet.cpp: its reads and the loop over the attributes.
use spadia.Common.{
  ℕ, zero, suc, ◌+◌, ◌≤◌, ◌<◌, ◌≡◌, refl, List, inl, inr, Option, none, some, ltb, ◌==◌, bit_and,
  Yields, Yields-bind, Bool-cases, arith, ltb→lt, ltb-false→le, leb, leb→le, leb-false→lt, sym,
  fault, out_of_bounds,
}
use spadia.Memory.{Buffer, ByteIo}
use spadia.Memory.Access.{read16-inside, slice-inside, slice-outside, read16-outside, bytes_from}
use spadia.Tools.{pad32}
use spadia.Stun.Packet.{StunPacket}
use spadia.Stun.Parse.{
  header_size, username_type, attr_header_size, take_attribute, attributes, parse,
}

-- No packet, or one with this transaction id and this method.
abbrev pub HasId : List ℕ → ℕ → Option StunPacket → Type 0
HasId id method none = Unit
HasId id method (some p) = (p.trans_id ≡ id) × (p.method ≡ method)

module _ (io : ByteIo) (b : Buffer) (size : ℕ) (inside : size ≤ b.size) where
  take_attribute-Yields :
      (p : StunPacket) (ty at n : ℕ)
      → at + n ≤ size
      → Yields (λ q. (q.trans_id ≡ p.trans_id) × (q.method ≡ p.method)) (take_attribute p b ty at n)
  unfolding take_attribute
  take_attribute-Yields p ty at n h = elim (Bool-cases (ty == username_type)) [
    | inl e ↦ rw (e, slice-inside b at n (omega arith)) (refl, refl)
    | inr e ↦ rw e (refl, refl)
  ]

  attributes-Yields :
      (fuel : ℕ) (p : StunPacket) (i : ℕ)
      → 0 < fuel
      → size < fuel + i
      → Yields (HasId p.trans_id p.method) (attributes io fuel p b size i)
  unfolding attributes
  attributes-Yields zero p i some_fuel enough = omega arith
  attributes-Yields (suc fuel) p i some_fuel enough = elim (Bool-cases (ltb (i + 4) size)) [
    | inl e ↦
        rw
          (
            e,
            read16-inside io b i (omega (arith, ltb→lt (i + 4) size e)),
            read16-inside io b (i + 2) (omega (arith, ltb→lt (i + 4) size e)),
          )
          (elim (Bool-cases (ltb size (i + attr_header_size + attr_len))) [
            | inl long ↦ rw long tt
            | inr fits ↦ rw fits (
                Yields-bind (λ q. (q.trans_id ≡ p.trans_id) × (q.method ≡ p.method))
                  (HasId p.trans_id p.method) _ _
                  (take_attribute-Yields p _ (i + attr_header_size) attr_len
                    (ltb-false→le size (i + attr_header_size + attr_len) fits))
                  λ q (same_id, same_method).
                    rw (sym same_id, sym same_method)
                      (attributes-Yields fuel q (i + attr_header_size + pad32 attr_len)
                        (omega (arith, ltb→lt (i + 4) size e)) (omega arith)))
          ])
    | inr e ↦ rw e (refl, refl)
  ]
    where
      attr_len : ℕ
      attr_len = io.read_u16 (b.bytes (i + 2)) (b.bytes (i + 2 + 1))

module _ (io : ByteIo) (b : Buffer) (size : ℕ) where
  -- On a message of 20 bytes or more, `Parse` returns whatever the attributes' length fields say:
  -- it ends and reads nothing outside the message. Where it returns a packet, the transaction id is
  -- the 12 bytes at offset 8, and the method the first word masked.
  pub stun_parse_returns :
      header_size ≤ size
      → size ≤ b.size
      → Yields
          (HasId (bytes_from b 8 12) (bit_and (io.read_u16 (b.bytes 0) (b.bytes 1)) 0xFEEF))
          (parse io b size)
  unfolding parse
  stun_parse_returns big inside =
      rw (read16-inside io b 0 (omega arith), slice-inside b 8 12 (omega arith))
        (attributes-Yields io b size inside (size + 1) _ header_size (omega arith) (omega arith))

  -- On a block shorter than 20 bytes, `Parse` reads past its end.
  stun_parse_short : b.size < header_size → parse io b size ≡ fault out_of_bounds
  unfolding parse
  stun_parse_short short = elim (Bool-cases (leb 2 b.size)) [
    | inl two ↦
        rw
          (
            read16-inside io b 0 (leb→le 2 b.size two),
            slice-outside b 8 12 (omega arith) (omega arith),
          )
          refl
    | inr fewer ↦ rw (read16-outside io b 0 (leb-false→lt 2 b.size fewer)) refl
  ]
