-- ===== src/Stun/Serialize/Written.antt =====
-- The block of a Binding response, step by step as `Serialize` writes it.
use spadia.Common.{
  ℕ, ◌^◌, ◌<◌, ◌≡◌, refl, sym, ne→==, ◌∙◌, List, [], ◌∷◌, ◌++◌, length, done, arith,
}
use spadia.Memory.{Buffer, ByteIo, IsBigEndian, malloc, load, store, store_list, slice, write16}
use spadia.Memory.Access.{
  stored16, stored32, stored_all, stored_all-size, stored_all-before, store_list-inside,
  write16-inside, write32-inside, bytes_from, bytes_from-same,
}
use spadia.Crc32.{calculate_xor_crc}
use spadia.Crc32.Range.{calculate_xor_crc-same}
use spadia.Stun.Packet.{StunPacket, make_response}
use spadia.Stun.Serialize.{
  magic_cookie, max_stun_size, write_header, write_integrity, write_fingerprint,
}

-- A transaction id is 12 bytes.
pub data IsId : List ℕ → Type 0 where
  id12 : (a b c d e f g h i j k l : ℕ) → IsId (a ∷ b ∷ c ∷ d ∷ e ∷ f ∷ g ∷ h ∷ i ∷ j ∷ k ∷ l ∷ [])

-- A packet of the method Binding.
abbrev pub binding : List ℕ → ℕ → List ℕ → StunPacket
binding name kind id = record { username = name; method = 1; kind = kind; trans_id = id }

-- The 20 bytes that the digest covers: the length field leaves FINGERPRINT out.
abbrev pub covered : List ℕ → List ℕ
covered id = 1 ∷ 1 ∷ 0 ∷ 24 ∷ (magic_cookie ++ id)

module _ (io : ByteIo) (hmac : List ℕ → List ℕ → List ℕ) (junk : ℕ → ℕ) (pwd id : List ℕ) where
  abbrev pub begun : Buffer
  begun =
      let block : Buffer = record { size = 640; bytes = junk } in
      stored_all (stored_all (stored16 io block 0 257) 4 magic_cookie) 8 id

  abbrev pub keyed : Buffer
  keyed = stored16 io (stored16 io (stored16 io begun 2 24) 20 8) 22 20

  abbrev pub digest : List ℕ
  digest = hmac pwd (covered id)

  abbrev pub signed : Buffer
  signed = stored_all keyed 24 digest

  abbrev pub measured : Buffer
  measured = stored16 io signed 2 32

  abbrev pub closed : ℕ → Buffer
  closed crc = stored32 io (stored16 io (stored16 io measured 44 0x8028) 46 4) 48 crc

  -- What follows the CRC's 44 bytes leaves them.
  pub closed-below : (crc j : ℕ) → j < 44 → measured.bytes j ≡ (closed crc).bytes j
  closed-below crc j h = rw (
    ne→== j 51 (omega arith),
    ne→== j 50 (omega arith),
    ne→== j 49 (omega arith),
    ne→== j 48 (omega arith),
    ne→== j 47 (omega arith),
    ne→== j 46 (omega arith),
    ne→== j 45 (omega arith),
    ne→== j 44 (omega arith),
  )

module _ (io : ByteIo) (hmac : List ℕ → List ℕ → List ℕ) (junk : ℕ → ℕ) (pwd : List ℕ)
    (big : IsBigEndian io) where
  pub header-written :
      {id : List ℕ}
      → IsId id
      → (name : List ℕ) (kind : ℕ)
      → write_header io hmac (make_response (binding name kind id)) (malloc junk max_stun_size)
        ≡ done (begun io hmac junk pwd id)
  unfolding write_header make_response write16 store_list store malloc
  header-written (id12 a b c d e f g h i j k l) name kind = refl

  message-read :
      {id : List ℕ} → IsId id → slice (keyed io hmac junk pwd id) 0 20 ≡ done (covered id)
  unfolding slice load
  message-read (id12 a b c d e f g h i j k l) =
      rw (big.write_u16_lem 257 (omega arith), big.write_u16_lem 24 (omega arith))

  begun-size : {id : List ℕ} → IsId id → (begun io hmac junk pwd id).size ≡ 640
  begun-size (id12 a b c d e f g h i j k l) = refl

  pub signed-size : {id : List ℕ} → IsId id → (signed io hmac junk pwd id).size ≡ 640
  signed-size {id} valid =
      stored_all-size (keyed io hmac junk pwd id) 24 (digest io hmac junk pwd id) ∙ begun-size valid

  pub integrity-written :
      {id : List ℕ}
      → IsId id
      → length (hmac pwd (covered id)) ≡ 20
      → write_integrity io hmac pwd (begun io hmac junk pwd id) 0
        ≡ done (signed io hmac junk pwd id)
  unfolding write_integrity
  integrity-written {id} valid full =
      let size = begun-size valid in
      rw (
        write16-inside io (begun io hmac junk pwd id) 2 24 (omega arith),
        write16-inside io (stored16 io (begun io hmac junk pwd id) 2 24) 20 8 (omega arith),
        write16-inside io (stored16 io (stored16 io (begun io hmac junk pwd id) 2 24) 20 8) 22 20
            (omega arith),
        message-read valid,
        store_list-inside (keyed io hmac junk pwd id) 24 (hmac pwd (covered id)) (omega arith),
        full,
      )

  -- The bytes that the CRC covers are not written after it.
  pub fingerprint-written :
      {id : List ℕ}
      → IsId id
      → (crc : ℕ) × (write_fingerprint io hmac (signed io hmac junk pwd id) 24
          ≡ done (closed io hmac junk pwd id crc))
        × (calculate_xor_crc (closed io hmac junk pwd id crc) 44 ≡ done crc)
        × (crc < 2 ^ 32)
  unfolding write_fingerprint
  fingerprint-written {id} valid =
      let size = signed-size valid in
      let m = measured io hmac junk pwd id in
      let (crc, e, _, fits) =
        calculate_xor_crc-same m m 44 (omega arith) (omega arith) (λ _ _. refl) in
      let (v, e1, e2, _) =
        calculate_xor_crc-same m (closed io hmac junk pwd id crc) 44 (omega arith) (omega arith)
          (closed-below io hmac junk pwd id crc) in
      (
        crc,
        rw (
          write16-inside io (signed io hmac junk pwd id) 2 32 (omega arith),
          e,
          write16-inside io m 44 0x8028 (omega arith),
          write16-inside io (stored16 io m 44 0x8028) 46 4 (omega arith),
          write32-inside io (stored16 io (stored16 io m 44 0x8028) 46 4) 48 crc (omega arith),
        ),
        e2 ∙ sym e1 ∙ e,
        fits,
      )

  -- The 24 bytes in front of the digest, at the end.
  front : List ℕ → Buffer
  front id = stored16 io (keyed io hmac junk pwd id) 2 32

  closed-front :
      (id : List ℕ) (crc j : ℕ)
      → j < 24
      → (closed io hmac junk pwd id crc).bytes j ≡ (front id).bytes j
  unfolding front
  closed-front id crc j h =
      sym (closed-below io hmac junk pwd id crc j (omega arith))
      ∙ ground
          (arith, stored_all-before (keyed io hmac junk pwd id) 24 (digest io hmac junk pwd id) j h)

  front-read :
      {id : List ℕ}
      → IsId id
      → bytes_from (front id) 0 24 ≡ 1 ∷ 1 ∷ 0 ∷ 32 ∷ (magic_cookie ++ (id ++ 0 ∷ 8 ∷ 0 ∷ 20 ∷ []))
  unfolding front
  front-read (id12 a b c d e f g h i j k l) = rw (
    big.write_u16_lem 257 (omega arith),
    big.write_u16_lem 32 (omega arith),
    big.write_u16_lem 8 (omega arith),
    big.write_u16_lem 20 (omega arith),
  )

  pub closed-read :
      {id : List ℕ}
      → IsId id
      → (crc : ℕ)
      → bytes_from (closed io hmac junk pwd id crc) 0 24
        ≡ 1 ∷ 1 ∷ 0 ∷ 32 ∷ (magic_cookie ++ (id ++ 0 ∷ 8 ∷ 0 ∷ 20 ∷ []))
  closed-read {id} valid crc =
      bytes_from-same (closed io hmac junk pwd id crc) (front id) 0 24
        (λ j h. closed-front id crc j (omega arith))
      ∙ front-read valid
