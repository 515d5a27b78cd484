-- ===== src/Tests/Stun.antt =====
-- A Binding request with a username, a response, and a message that is cut off.
use spadia.Common.{
  ℕ, ◌+◌, ◌<◌, ◌≡◌, refl, true, List, [], ◌∷◌, ◌++◌, replicate, length, length-replicate, get_or,
  some, bit_and, done, Yields, arith,
}
use spadia.Memory.{Buffer, load, slice, read16, read32}
use spadia.Memory.Access.{bytes_from}
use spadia.Crc32.{calculate_xor_crc}
use spadia.Stun.Packet.{make_response, is_stun}
use spadia.Stun.Parse.{take_attribute, attributes, parse}
use spadia.Stun.Parse.Bounds.{HasId, stun_parse_returns}
use spadia.Stun.Serialize.{magic_cookie, serialize}
use spadia.Stun.Serialize.Written.{id12, binding, covered}
use spadia.Stun.Serialize.Response.{stun_response}
use spadia.Tools.{pad32}
use spadia.Tests.{big_endian, big_endian-IsBigEndian, block_of}

abbrev pub id : List ℕ
id = 1 ∷ 2 ∷ 3 ∷ 4 ∷ 5 ∷ 6 ∷ 7 ∷ 8 ∷ 9 ∷ 10 ∷ 11 ∷ 12 ∷ []

-- A Binding request with the username "ab:".
abbrev pub request : List ℕ
request = 0 ∷ 1 ∷ 0 ∷ 8 ∷ (magic_cookie ++ (id ++ 0 ∷ 6 ∷ 0 ∷ 3 ∷ 97 ∷ 98 ∷ 58 ∷ 0 ∷ 0 ∷ []))

-- The attributes are read where at least one byte follows their header.
pub username_read :
    parse big_endian (block_of request) 29
    ≡ done (some (record { username = 97 ∷ 98 ∷ 58 ∷ []; method = 1; kind = 0; trans_id = id }))
unfolding parse attributes take_attribute read16 slice load pad32
username_read = refl

stun_parse_returns_example :
    Yields
      (HasId (bytes_from (block_of request) 8 12) (
        bit_and
          (big_endian.read_u16 ((block_of request).bytes 0) ((block_of request).bytes 1))
          0xFEEF))
      (parse big_endian (block_of request) 29)
stun_parse_returns_example =
    stun_parse_returns big_endian (block_of request) 29 (omega arith) (omega arith)

-- A digest of 20 bytes.
abbrev pub toy_hmac : List ℕ → List ℕ → List ℕ
toy_hmac key message = replicate 20 (length message)

stun_response_example :
    (b : Buffer) × (serialize big_endian toy_hmac
        (λ _. 0)
        (make_response (binding (97 ∷ []) 0 id))
        (5 ∷ [])
      ≡ done (52, b))
    × (is_stun b ≡ done true)
    × (slice b 0 20 ≡ done (1 ∷ 1 ∷ 0 ∷ 32 ∷ (magic_cookie ++ id)))
    × ((j : ℕ) → j < 20 → b.bytes (24 + j) ≡ get_or (toy_hmac (5 ∷ []) (covered id)) j 0)
    × (calculate_xor_crc b 44 ≡ read32 big_endian b 48)
    × (parse big_endian b 52
        ≡ done (some (record { username = []; method = 1; kind = 0x100; trans_id = id })))
stun_response_example =
    stun_response big_endian toy_hmac (λ _. 0) (5 ∷ []) (97 ∷ []) id 0 big_endian-IsBigEndian
      (id12 1 2 3 4 5 6 7 8 9 10 11 12) (λ key message. length-replicate 20 (length message))
