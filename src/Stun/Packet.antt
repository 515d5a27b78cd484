-- ===== src/Stun/Packet.antt =====
-- `StunPacket`: its members, the test for STUN, and the response to a packet.
use spadia.Common.{ℕ, Bool, true, false, List, ◌==◌, if◌then◌else◌, Run, done, ◌>>=◌}
use spadia.Memory.{Buffer, load}

-- `type_` and `method_` are enums that are also cast from any bits. The username is its bytes.
pub record StunPacket : Type 0 where
  pub username : List ℕ
  pub method : ℕ
  pub kind : ℕ
  pub trans_id : List ℕ

abbrev pub response : ℕ
response = 2

-- `IsStun`; the second byte is read only where the first fits.
unfoldable pub is_stun : Buffer → Run Bool
is_stun b = do
  x ← load b 0
  request ← (if x == 0x00 then (load b 1 >>= λ y. done (y == 0x01)) else done false)
  if request
      then done true
      else (if x == 0x01 then (load b 1 >>= λ y. done (y == 0x01)) else done false)

unfoldable pub make_response : StunPacket → StunPacket
make_response p = record p { kind = response }
