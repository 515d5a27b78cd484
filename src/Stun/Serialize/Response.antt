-- ===== src/Stun/Serialize/Response.antt =====
-- What a Binding response holds, and what the parser reads back from it.
use spadia.Common.{
  ℕ, zero, suc, ◌+◌, ◌≤◌, ◌<◌, ◌≡◌, refl, sym, ◌∙◌, ap, true, false, List, [], ◌∷◌, ◌++◌, some,
  ◌==◌, get_or, length, done, arith, lt→ltb, ltb-false, ne→==,
}
use spadia.Memory.{Buffer, ByteIo, IsBigEndian, slice, read16, read32}
use spadia.Memory.Access.{
  stored_all-at, load-inside, read16-inside, read32-inside, slice-inside, bytes_from,
}
use spadia.Memory.Endian.{read_u16-write_u16, read_u32-write_u32}
use spadia.Crc32.{calculate_xor_crc}
use spadia.Tools.{pad32}
use spadia.Stun.Packet.{StunPacket, make_response, is_stun}
use spadia.Stun.Parse.{username_type, take_attribute, attributes, parse}
use spadia.Stun.Serialize.{magic_cookie, serialize}
use spadia.Stun.Serialize.Written.{
  IsId, id12, binding, covered, keyed, digest, closed, signed-size, header-written,
  integrity-written, fingerprint-written, closed-read, closed-below,
}

module _ (io : ByteIo) (b : Buffer) (p : StunPacket) (size : ℕ) where
  -- The loop passes an attribute of another type by.
  attributes-skip :
      (fuel i ty n : ℕ)
      → i + 4 < size
      → read16 io b i ≡ done ty
      → read16 io b (i + 2) ≡ done n
      → (ty == username_type) ≡ false
      → i + 4 + n ≤ size
      → attributes io (suc fuel) p b size i ≡ attributes io fuel p b size (i + 4 + pad32 n)
  unfolding attributes take_attribute
  attributes-skip fuel i ty n more e_ty e_n other fits =
      rw (lt→ltb (i + 4) size more, e_ty, e_n, other, ltb-false size (i + 4 + n) fits)

  attributes-end : (fuel i : ℕ) → size ≤ i + 4 → attributes io (suc fuel) p b size i ≡ done (some p)
  unfolding attributes
  attributes-end fuel i h = rw (ltb-false (i + 4) size h)

-- The `n` entries of a list from the `i`th on.
abbrev part : ℕ → ℕ → List ℕ → List ℕ
part i zero xs = []
part i (suc n) xs = get_or xs i 0 ∷ part (i + 1) n xs

module _ (io : ByteIo) (hmac : List ℕ → List ℕ → List ℕ) (junk : ℕ → ℕ) (pwd : List ℕ)
    (big : IsBigEndian io) where
  word_at :
      {id : List ℕ}
      → IsId id
      → (crc : ℕ)
      → let at : ℕ → ℕ = (closed io hmac junk pwd id crc).bytes in
        (io.read_u16 (at 0) (at 1) ≡ 257)
        × (io.read_u16 (at 20) (at 21) ≡ 8)
        × (io.read_u16 (at 22) (at 23) ≡ 20)
        × (at 0 ≡ 1)
        × (at 1 ≡ 1)
        × (bytes_from (closed io hmac junk pwd id crc) 0 20 ≡ 1 ∷ 1 ∷ 0 ∷ 32 ∷ (magic_cookie ++ id))
        × (bytes_from (closed io hmac junk pwd id crc) 8 12 ≡ id)
  word_at (id12 a b c d e f g h i j k l) crc =
      let whole = closed-read io hmac junk pwd big (id12 a b c d e f g h i j k l) crc in
      let word : ℕ → List ℕ → ℕ = λ i xs. io.read_u16 (get_or xs i 0) (get_or xs (i + 1) 0) in
      (
        ap (word 0) whole ∙ big.read_u16_lem 1 1 (omega arith) (omega arith),
        ap (word 20) whole ∙ big.read_u16_lem 0 8 (omega arith) (omega arith),
        ap (word 22) whole ∙ big.read_u16_lem 0 20 (omega arith) (omega arith),
        ap (λ xs. get_or xs 0 0) whole,
        ap (λ xs. get_or xs 1 0) whole,
        ap (part 0 20) whole,
        ap (part 8 12) whole,
      )

  parse-closed :
      {id : List ℕ}
      → IsId id
      → (crc : ℕ)
      → parse io (closed io hmac junk pwd id crc) 52
        ≡ done (some (record { username = []; method = 1; kind = 0x100; trans_id = id }))
  unfolding parse pad32
  parse-closed {id} valid crc =
      let b = closed io hmac junk pwd id crc in
      let size = signed-size io hmac junk pwd big valid in
      let (wd, ty, len, _, _, _, trans) = word_at valid crc in
      let p : StunPacket = record { username = []; method = 1; kind = 0x100; trans_id = id } in
      rw (read16-inside io b 0 (omega arith), slice-inside b 8 12 (omega arith), wd, trans)
        (attributes-skip io b p 52 52 20 8 20 (omega arith)
            (read16-inside io b 20 (omega arith) ∙ ap done ty)
            (read16-inside io b 22 (omega arith) ∙ ap done len) refl (omega arith)
          ∙ attributes-skip io b p 52 51 44 0x8028 4 (omega arith)
              (read16-inside io b 44 (omega arith)
                ∙ ap done (read_u16-write_u16 io big 0x8028 (omega arith)))
              (read16-inside io b 46 (omega arith)
                ∙ ap done (read_u16-write_u16 io big 4 (omega arith)))
              refl (omega arith)
          ∙ attributes-end io b p 52 50 52 (omega arith))

  digest-closed :
      (id : List ℕ)
      → length (hmac pwd (covered id)) ≡ 20
      → (crc j : ℕ) → j < 20
      → (closed io hmac junk pwd id crc).bytes (24 + j) ≡ get_or (hmac pwd (covered id)) j 0
  digest-closed id full crc j h =
      sym (closed-below io hmac junk pwd id crc (24 + j) (omega arith))
      ∙ rw (ne→== (24 + j) 3 (omega arith), ne→== (24 + j) 2 (omega arith))
          (stored_all-at (keyed io hmac junk pwd id) 24 (digest io hmac junk pwd id) j
            (omega arith))

is_stun-binding : (b : Buffer) → 2 ≤ b.size → b.bytes 0 ≡ 1 → b.bytes 1 ≡ 1 → is_stun b ≡ done true
unfolding is_stun
is_stun-binding b h first second =
    rw (load-inside b 0 (omega arith), load-inside b 1 (omega arith), first, second)

-- `Serialize` of the response to a Binding packet, with 12 bytes of transaction id and a digest of 20,
-- returns 52 bytes, which `IsStun` takes for STUN: a header of length 32 with the cookie and the
-- request's transaction id; MESSAGE-INTEGRITY, the digest of the header as it is with length 24;
-- and FINGERPRINT, the CRC of the first 44 bytes. `Parse` reads the method and the id back from them.
pub stun_response :
    (io : ByteIo) (hmac : List ℕ → List ℕ → List ℕ) (junk : ℕ → ℕ) (pwd name id : List ℕ) (kind : ℕ)
    → IsBigEndian io
    → IsId id
    → ((key message : List ℕ) → length (hmac key message) ≡ 20)
    → (b : Buffer) × (serialize io hmac junk (make_response (binding name kind id)) pwd
        ≡ done (52, b))
      × (is_stun b ≡ done true)
      × (slice b 0 20 ≡ done (1 ∷ 1 ∷ 0 ∷ 32 ∷ (magic_cookie ++ id)))
      × ((j : ℕ) → j < 20 → b.bytes (24 + j) ≡ get_or (hmac pwd (covered id)) j 0)
      × (calculate_xor_crc b 44 ≡ read32 io b 48)
      × (parse io b 52
          ≡ done (some (record { username = []; method = 1; kind = 0x100; trans_id = id })))
unfolding serialize
stun_response io hmac junk pwd name id kind big valid full =
    let (crc, written, same, fits) = fingerprint-written io hmac junk pwd big valid in
    let b = closed io hmac junk pwd id crc in
    let size = signed-size io hmac junk pwd big valid in
    let (_, _, _, first, second, head, _) = word_at io hmac junk pwd big valid crc in
    (
      b,
      rw (
        header-written io hmac junk pwd big valid name kind,
        integrity-written io hmac junk pwd big valid (full pwd (covered id)),
        written,
      ),
      is_stun-binding b (omega arith) first second,
      slice-inside b 0 20 (omega arith) ∙ ap done head,
      digest-closed io hmac junk pwd big id (full pwd (covered id)) crc,
      same
          ∙ sym
              (read32-inside io b 48 (omega arith) ∙ ap done (read_u32-write_u32 io big crc fits)),
      parse-closed io hmac junk pwd big valid crc,
    )
