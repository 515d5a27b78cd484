-- ===== src/Connection/Answers.antt =====
-- What a connection does with a STUN Binding message.
use spadia.Common.{
  ℕ, ◌+◌, ◌≤◌, ◌<◌, ◌≡◌, refl, ◌++◌, ◌⊎◌, inl, inr, List, ◌∷◌, Option, none, some, length, done,
  fault, null_pointer, ◌>>=◌, Yields-done, arith, lt→ltb,
}
use native.Mathlib.Numerals.{add-one}
use spadia.Memory.{Buffer, ByteIo, IsBigEndian, slice}
use spadia.Memory.Access.{read16-inside, slice-inside, bytes_from}
use spadia.Stun.Packet.{StunPacket}
use spadia.Stun.Parse as StunParse
use spadia.Stun.Parse.{header_size, attributes}
use spadia.Stun.Parse.Bounds.{HasId, stun_parse_returns}
use spadia.Stun.Serialize.{magic_cookie}
use spadia.Stun.Serialize.Response.{stun_response}
use spadia.Stun.Binding.{
  IsBinding, is_stun-IsBinding, method_of, bytes_from-IsId, as_binding, parse-binding,
}
use spadia.Connection.{Connection, responded, World, respond, handle, on_socket_data}

module _ (io : ByteIo) (hmac : List ℕ → List ℕ → List ℕ) (w : World) (c : Connection) (b : Buffer)
    (size : ℕ) where
  -- The connection, which has noted the time.
  abbrev updated : Connection
  updated = record c { last_packet_recv_time_ms = w.now_ms }

  -- What becomes of a request: a fault where `Parse` has no packet, or a response of 52 bytes that
  -- starts with the header of its transaction id.
  abbrev pub Answered : Type 0
  Answered =
      ((StunParse.parse io b size ≡ done none)
        × (on_socket_data io hmac w c b size ≡ fault null_pointer))
      ⊎ ((p : StunPacket) × (data_block : Buffer) × (StunParse.parse io b size ≡ done (some p))
          × (on_socket_data io hmac w c b size ≡ done (updated, responded 52 data_block))
          × (slice data_block 0 20 ≡ done (1 ∷ 1 ∷ 0 ∷ 32 ∷ (magic_cookie ++ bytes_from b 8 12))))

module _ (io : ByteIo) (hmac : List ℕ → List ℕ → List ℕ) (w : World) (c : Connection) (b : Buffer)
    (size : ℕ) (big : IsBigEndian io) (request : IsBinding b) (whole : header_size ≤ size)
    (inside : size ≤ b.size) (full : (key message : List ℕ) → length (hmac key message) ≡ 20) where
  handle-stun : handle io hmac w c b size ≡ (StunParse.parse io b size >>= respond io hmac w c)
  unfolding handle
  handle-stun = rw (is_stun-IsBinding b (omega arith) request)

  parsed-Answered :
      (o : Option StunPacket)
      → StunParse.parse io b size ≡ done o
      → HasId (bytes_from b 8 12) (method_of io b) o
      → Answered io hmac w c b size
  unfolding on_socket_data respond
  parsed-Answered none parsed h = inl (parsed, rw (handle-stun, parsed) refl)
  parsed-Answered (some p) parsed (same_id, same_method) =
      let (data_block, e, _, head, _, _, _) =
        stun_response io hmac w.junk c.local_password p.username (bytes_from b 8 12) p.kind big
          (bytes_from-IsId b) full in
      inr (
        p,
        data_block,
        parsed,
        rw (handle-stun, parsed) (rw (as_binding io b big request p same_id same_method, e) refl),
        head,
      )

  -- On a Binding request of 20 bytes or more `Parse` returns. Where it returns a packet, the request
  -- is answered with a response of 52 bytes that has its transaction id; where it returns none, a
  -- member of a null pointer is called.
  pub on_socket_data_answers : Answered io hmac w c b size
  on_socket_data_answers =
      let (o, parsed, has_id) =
        Yields-done (HasId (bytes_from b 8 12) (method_of io b)) _
          (stun_parse_returns io b size whole inside) in
      parsed-Answered o parsed has_id

  -- A request that `Parse` takes is answered.
  pub on_socket_data_responds :
      (p : StunPacket)
      → StunParse.parse io b size ≡ done (some p)
      → (data_block : Buffer) × (on_socket_data io hmac w c b size
          ≡ done (updated io hmac w c b size, responded 52 data_block))
  unfolding on_socket_data respond
  on_socket_data_responds p parsed =
      let (data_block, e, _, _, _, _, _) =
        stun_response io hmac w.junk c.local_password p.username (bytes_from b 8 12) p.kind big
          (bytes_from-IsId b) full in
      (
        data_block,
        rw (handle-stun, parsed)
            (rw (parse-binding io b big request size p whole inside parsed, e) refl),
      )

-- The crash can be sent: where the first attribute is longer than what is left, the outcome is a
-- member call through a null pointer.
pub on_socket_data_crashes :
    (io : ByteIo) (hmac : List ℕ → List ℕ → List ℕ) (w : World) (c : Connection) (b : Buffer)
    (size : ℕ)
    → IsBinding b
    → 24 < size
    → size ≤ b.size
    → size < 24 + io.read_u16 (b.bytes 22) (b.bytes 23)
    → on_socket_data io hmac w c b size ≡ fault null_pointer
unfolding on_socket_data handle respond StunParse.parse attributes
on_socket_data_crashes io hmac w c b size request more inside long = rw (
  is_stun-IsBinding b (omega arith) request,
  read16-inside io b 0 (omega arith),
  slice-inside b 8 12 (omega arith),
  add-one size,
  lt→ltb 24 size more,
  read16-inside io b 20 (omega arith),
  read16-inside io b 22 (omega arith),
  lt→ltb size (24 + io.read_u16 (b.bytes 22) (b.bytes 23)) long,
)
