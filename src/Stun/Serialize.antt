-- ===== src/Stun/Serialize.antt =====
-- `StunPacket::Serialize`: a header, MESSAGE-INTEGRITY and FINGERPRINT.
pub mod Written
pub mod Response
use spadia.Common.{
  ℕ, ◌+◌, ◌-◌, List, [], ◌∷◌, ◌==◌, if◌then◌else◌, u16, ◌<<<◌, bit_and, bit_or, length, Run, done,
  fault, assertion, ◌>>=◌,
}
use spadia.Memory.{Buffer, ByteIo, malloc, store_list, slice, write16, write32}
use spadia.Crc32.{calculate_xor_crc}
use spadia.Stun.Packet.{StunPacket}
use spadia.Stun.Parse.{header_size, attr_header_size}

abbrev pub magic_cookie : List ℕ
magic_cookie = 0x21 ∷ 0x12 ∷ 0xA4 ∷ 0x42 ∷ []

abbrev pub max_stun_size : ℕ
max_stun_size = 640

abbrev pub hmac_size : ℕ
hmac_size = 20

abbrev pub fingerprint_size : ℕ
fingerprint_size = 4

abbrev pub message_integrity_type : ℕ
message_integrity_type = 0x0008

abbrev pub fingerprint_type : ℕ
fingerprint_type = 0x8028

-- `method_ | (type_ & 2) << 7 | (type_ & 1) << 4`
abbrev pub message_type : StunPacket → ℕ
message_type p = u16 (bit_or (bit_or p.method (bit_and p.kind 2 <<< 7)) (bit_and p.kind 1 <<< 4))

-- `hmac` stands for OpenSSL's HMAC with SHA-1: the digest of a message (its second argument)
-- under a key.
module _ (io : ByteIo) (hmac : List ℕ → List ℕ → List ℕ) where
  -- The type, the cookie and the transaction id.
  unfoldable pub write_header : StunPacket → Buffer → Run Buffer
  write_header p b = do
    b1 ← write16 io b 0 (message_type p)
    b2 ← store_list b1 4 magic_cookie
    store_list b2 8 p.trans_id

  -- MESSAGE-INTEGRITY behind `attr_size` bytes of attributes: first the length field, as the digest
  -- is to see it, then the attribute.
  unfoldable pub write_integrity : List ℕ → Buffer → ℕ → Run Buffer
  write_integrity pwd b attr_size = do
    let full = attr_size + (attr_header_size + hmac_size + attr_header_size + fingerprint_size)
    b1 ← write16 io b 2 (full - attr_header_size - fingerprint_size)
    b2 ← write16 io b1 (attr_size + header_size) message_integrity_type
    b3 ← write16 io b2 (attr_size + header_size + 2) hmac_size
    message ← slice b3 0 (attr_size + header_size)
    let digest = hmac pwd message
    b4 ← store_list b3 (header_size + attr_size + attr_header_size) digest
    if length digest == hmac_size then done b4 else fault assertion

  -- FINGERPRINT behind `attr_size` bytes of attributes, over a message of the final length.
  unfoldable pub write_fingerprint : Buffer → ℕ → Run Buffer
  write_fingerprint b attr_size = do
    b1 ← write16 io b 2 (attr_size + attr_header_size + fingerprint_size)
    crc ← calculate_xor_crc b1 (attr_size + header_size)
    b2 ← write16 io b1 (header_size + attr_size) fingerprint_type
    b3 ← write16 io b2 (header_size + attr_size + 2) fingerprint_size
    write32 io b3 (header_size + attr_size + attr_header_size) crc

  -- The size returned, and the block.
  unfoldable pub serialize : (ℕ → ℕ) → StunPacket → List ℕ → Run (ℕ × Buffer)
  unfolding write_header write_integrity write_fingerprint
  serialize junk p pwd = do
    let b0 = malloc junk max_stun_size
    b1 ← write_header p b0
    b2 ← write_integrity pwd b1 0
    let attr_size = attr_header_size + hmac_size
    b3 ← write_fingerprint b2 attr_size
    done (attr_size + attr_header_size + fingerprint_size + header_size, b3)
