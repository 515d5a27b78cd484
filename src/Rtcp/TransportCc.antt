-- ===== src/Rtcp/TransportCc.antt =====
-- `RTCPRTPFeedbackPacket::TransportCCFeedBack`: what `InsertPacket` collects and `Serialize` writes.
-- `data` stands at `base` of the block.
pub mod Parse
use spadia.Common.{
  ℕ, zero, suc, ◌+◌, ◌-◌, ◌*◌, ◌/◌, ◌%◌, ◌^◌, ℤ, pos, negsuc, Bool, true, false, List, [], ◌∷◌,
  ◌++◌, ltb, leb, ◌==◌, if◌then◌else◌, u16, u32, u64, ◌<<<◌, bit_and, bit_or, length, Run, done,
  fault, stuck, signed_overflow, ◌>>=◌,
}
use spadia.Common.Dict.{insert}
use spadia.Memory.{Buffer, ByteIo, store, write8, write16, write32}

-- The local `referenceTime` of `Serialize` hides the member, which only `Parse` sets.
pub record TransportCc : Type 0 where
  pub reference_time : ℕ
  pub feedback_packet_count : ℕ
  pub packets : List (ℕ × ℕ)

-- `PacketStatus`
abbrev pub not_received : ℕ
not_received = 0

abbrev pub small_delta : ℕ
small_delta = 1

abbrev pub large_or_negative_delta : ℕ
large_or_negative_delta = 2

-- `InsertPacket`
unfoldable pub insert_packet : TransportCc → ℕ → ℕ → TransportCc
unfolding insert
insert_packet t transport_num time_us = record t {
  packets = insert transport_num time_us t.packets;
}

-- A `uint64_t` as `int`: its low 32 bits.
unfoldable pub to_int : ℕ → ℤ
to_int v = if ltb (v % 2 ^ 32) (2 ^ 31) then pos (v % 2 ^ 32) else negsuc (2 ^ 32 - 1 - v % 2 ^ 32)

unfoldable pub negate : ℤ → Run ℤ
negate (pos zero) = done (pos zero)
negate (pos (suc n)) = done (negsuc n)
negate (negsuc n) = if n + 1 == 2 ^ 31 then fault signed_overflow else done (pos (n + 1))

-- `delta` of a packet received at `second`.
unfoldable pub delta_of : ℕ → ℕ → Run ℤ
unfolding to_int negate
delta_of time second =
    if ltb time second
    then done (to_int ((second - time) / 250))
    else negate (to_int ((time - second) / 250))

unfoldable pub is_small : ℤ → Bool
is_small (pos d) = leb d 127
is_small (negsuc d) = false

-- `time + delta * 250`, the product an `int`.
unfoldable pub next_time : ℕ → ℤ → Run ℕ
next_time time (pos d) =
    if ltb (d * 250) (2 ^ 31) then done (u64 (time + d * 250)) else fault signed_overflow
next_time time (negsuc d) =
    if leb ((d + 1) * 250) (2 ^ 31)
    then done (u64 (time + 2 ^ 64 - (d + 1) * 250))
    else fault signed_overflow

-- The variables of the first loop.
pub record Scan : Type 0 where
  pub block : Buffer
  pub len : ℕ
  pub first_received : Bool
  pub time : ℕ
  pub deltas : List ℤ
  pub statuses : List ℕ

module _ (io : ByteIo) (count base : ℕ) where
  -- The reference time and the count of feedback packets, at the first packet received.
  unfoldable pub write_reference : Scan → ℕ → Run Scan
  write_reference s second = do
    let reference_time = bit_and (second / 64000) 0x7FFFFF
    b1 ← write32 io s.block (base + 4) (u32 (reference_time <<< 8))
    b2 ← write16 io b1 (base + 7) count
    done (record s {
      block = b2;
      len = s.len + 4;
      first_received = true;
      time = reference_time * 64000;
    })

  -- The body of the loop for a packet that was received.
  unfoldable pub scan_received : Scan → ℕ → Run Scan
  unfolding write_reference
  scan_received s second = do
    s1 ← if s.first_received then done s else write_reference s second
    delta ← delta_of s1.time second
    time ← next_time s1.time delta
    done (record s1 {
      time = time;
      deltas = s1.deltas ++ delta ∷ [];
      statuses =
          s1.statuses ++ (if is_small delta then small_delta else large_or_negative_delta) ∷ [];
    })

  unfoldable pub scan : List (ℕ × ℕ) → Scan → Run Scan
  scan [] s = done s
  scan ((num, second) ∷ packets) s =
      let received = scan_received s second >>= scan packets in
      let missed = scan packets (record s { statuses = s.statuses ++ not_received ∷ [] }) in
      if second == 0 then missed else received

-- The loop over `j` with `n` symbols left of 7, that is, `j = 7 - n`.
unfoldable pub chunk_bits : ℕ → List ℕ → ℕ → ℕ
chunk_bits zero statuses chunk = chunk
chunk_bits (suc n) [] chunk = chunk
chunk_bits (suc n) (s ∷ statuses) chunk = chunk_bits n statuses (u16 (bit_or chunk (s <<< (2 * n))))

-- `i += 7`
unfoldable pub drop : ℕ → List ℕ → List ℕ
drop zero xs = xs
drop (suc n) [] = []
drop (suc n) (x ∷ xs) = drop n xs

module _ (io : ByteIo) where
  -- One chunk of two-bit symbols a round, from `at` on; a round takes an entry at least.
  unfoldable pub write_chunks : ℕ → List ℕ → Buffer → ℕ → Run (ℕ × Buffer)
  unfolding chunk_bits drop
  write_chunks fuel [] b at = done (at, b)
  write_chunks zero (s ∷ ss) b at = stuck
  write_chunks (suc fuel) (s ∷ ss) b at = do
    b1 ← write16 io b at (chunk_bits 7 (s ∷ ss) 0xC000)
    write_chunks fuel (drop 7 (s ∷ ss)) b1 (at + 2)

  -- `(short)*it` as its 16 bits, or one byte.
  unfoldable pub write_delta : ℤ → Buffer → ℕ → Run (ℕ × Buffer)
  write_delta (pos d) b at =
      if leb d 127
      then (write8 io b at d >>= λ b1. done (at + 1, b1))
      else (write16 io b at (u16 d) >>= λ b1. done (at + 2, b1))
  write_delta (negsuc d) b at = do b1 ← write16 io b at (2 ^ 16 - 1 - d % 2 ^ 16); done (at + 2, b1)

  unfoldable pub write_deltas : List ℤ → Buffer → ℕ → Run (ℕ × Buffer)
  unfolding write_delta
  write_deltas [] b at = done (at, b)
  write_deltas (d ∷ ds) b at = do (at1, b1) ← write_delta d b at; write_deltas ds b1 at1

-- `while (len % 4) data[len++] = 0;`, at most three rounds.
unfoldable pub pad_loop : ℕ → Buffer → ℕ → ℕ → Run (ℕ × Buffer)
pad_loop zero b base len = if len % 4 == 0 then done (len, b) else stuck
pad_loop (suc fuel) b base len =
    let more = store b (base + len) 0 >>= λ b1. pad_loop fuel b1 base (len + 1) in
    if len % 4 == 0 then done (len, b) else more

module _ (io : ByteIo) where
  unfoldable pub serialize_packets : TransportCc → ℕ → Buffer → ℕ → Run (ℕ × Buffer)
  unfolding scan write_chunks write_deltas pad_loop
  serialize_packets t first b base = do
    b1 ← write16 io b base (u16 first)
    b2 ← write16 io b1 (base + 2) (u16 (length t.packets))
    s ← scan io t.feedback_packet_count base t.packets (record {
      block = b2;
      len = 4;
      first_received = false;
      time = 0;
      deltas = [];
      statuses = [];
    })
    (at, b3) ← write_chunks io (length s.statuses) s.statuses s.block (base + s.len)
    (end, b4) ← write_deltas io s.deltas b3 at
    pad_loop 3 b4 base (end - base)

  unfoldable pub serialize_from : TransportCc → List (ℕ × ℕ) → Buffer → ℕ → Run (ℕ × Buffer)
  unfolding serialize_packets
  serialize_from t [] b base = done (0, b)
  serialize_from t ((first, _) ∷ _) b base = serialize_packets t first b base

  -- `Serialize(data)`: the length, and the block.
  unfoldable pub serialize : TransportCc → Buffer → ℕ → Run (ℕ × Buffer)
  unfolding serialize_from
  serialize t b base = serialize_from t t.packets b base
