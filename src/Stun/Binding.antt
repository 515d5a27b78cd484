-- ===== src/Stun/Binding.antt =====
-- Binding requests: the datagrams that `IsStun` takes for one, and the packet that `Parse` makes of them.
use spadia.Common.{ℕ, ◌≤◌, ◌≡◌, ◌∙◌, ap₂, true, some, bit_and, done, arith}
use spadia.Memory.{Buffer, ByteIo, IsBigEndian}
use spadia.Memory.Access.{load-inside, bytes_from}
use spadia.Stun.Packet.{StunPacket, is_stun}
use spadia.Stun.Parse.{header_size, parse}
use spadia.Stun.Parse.Bounds.{stun_parse_returns}
use spadia.Stun.Serialize.Written.{IsId, id12, binding}

-- The first two bytes of a Binding request.
abbrev pub IsBinding : Buffer → Type 0
IsBinding b = (b.bytes 0 ≡ 0) × (b.bytes 1 ≡ 1)

pub is_stun-IsBinding : (b : Buffer) → 2 ≤ b.size → IsBinding b → is_stun b ≡ done true
unfolding is_stun
is_stun-IsBinding b room (first, second) =
    rw (load-inside b 0 (omega arith), load-inside b 1 (omega arith), first, second)

abbrev pub method_of : ByteIo → Buffer → ℕ
method_of io b = bit_and (io.read_u16 (b.bytes 0) (b.bytes 1)) 0xFEEF

pub bytes_from-IsId : (b : Buffer) → IsId (bytes_from b 8 12)
bytes_from-IsId b = id12 _ _ _ _ _ _ _ _ _ _ _ _

module _ (io : ByteIo) (b : Buffer) (big : IsBigEndian io) (request : IsBinding b) where
  method-one : method_of io b ≡ 1
  method-one = rw (request.0, request.1, big.read_u16_lem 0 1 (omega arith) (omega arith))

  pub as_binding :
      (p : StunPacket)
      → p.trans_id ≡ bytes_from b 8 12
      → p.method ≡ method_of io b
      → p ≡ binding p.username p.kind (bytes_from b 8 12)
  as_binding p same_id same_method =
      ap₂ (λ m t. record { username = p.username; method = m; kind = p.kind; trans_id = t })
        (same_method ∙ method-one) same_id

  -- What `Parse` returns for a Binding request is a Binding packet of the same transaction id.
  pub parse-binding :
      (size : ℕ) (p : StunPacket)
      → header_size ≤ size
      → size ≤ b.size
      → parse io b size ≡ done (some p)
      → p ≡ binding p.username p.kind (bytes_from b 8 12)
  parse-binding size p whole inside e =
      let (same_id, same_method) = rw e at (stun_parse_returns io b size whole inside) in
      as_binding p same_id same_method
