-- ===== src/Rtcp/TransportCc/Parse.antt =====
-- `TransportCCFeedBack::Parse`. `data` stands at `base` of the block; sizes are below 2^31, so that
-- `len` never comes near the end of its 32 bits.
pub mod Entries
pub mod Bounds
pub mod Chunks
pub mod RoundTrip
pub mod Deltas
pub mod Replay
pub mod Quantized
pub mod Times
pub mod Whole
pub mod Field
pub mod Moved
pub mod Serialized
use spadia.Common.{
  ℕ, zero, suc, ◌+◌, ◌-◌, ◌*◌, ◌/◌, ◌%◌, ◌^◌, ℤ, pos, negsuc, Bool, true, false, List, [], ◌∷◌,
  ◌++◌, ltb, ◌==◌, if◌then◌else◌, Option, none, some, u32, u64, ◌>>>◌, bit_and, length, replicate,
  Run, done, fault, stuck, out_of_bounds, ◌>>=◌,
}
use spadia.Common.Dict.{insert}
use spadia.Memory.{Buffer, ByteIo, read8, read16, read32, read_short}
use spadia.Rtcp.TransportCc.{TransportCc, not_received, small_delta, large_or_negative_delta}

-- The loop of 7 rounds, with `n` of them left: `j = 7 - n`.
unfoldable pub two_bit_statuses : ℕ → ℕ → List ℕ
two_bit_statuses zero chunk = []
two_bit_statuses (suc n) chunk = bit_and (chunk >>> (2 * n)) 3 ∷ two_bit_statuses n chunk

-- The loop of 14 rounds, with `n` of them left: `j = 14 - n`.
unfoldable pub one_bit_statuses : ℕ → ℕ → List ℕ
one_bit_statuses zero chunk = []
one_bit_statuses (suc n) chunk = bit_and (chunk >>> n) 1 ∷ one_bit_statuses n chunk

-- What one chunk adds to `statuses`.
unfoldable pub chunk_statuses : ℕ → List ℕ
unfolding two_bit_statuses one_bit_statuses
chunk_statuses chunk =
    if chunk >>> 15 == 0
    then replicate (bit_and chunk 0x1FFF) (chunk >>> 13)
    else if bit_and (chunk >>> 14) 1 == 0
    then one_bit_statuses 14 chunk
    else two_bit_statuses 7 chunk

-- `time += delta`, an `int` added to a `uint64_t`.
unfoldable pub add_delta : ℕ → ℤ → ℕ
add_delta time (pos d) = u64 (time + d * 250)
add_delta time (negsuc d) = u64 (time + 2 ^ 64 - (d + 1) * 250)

-- The variables of the loop over the packets: `baseSeqNumber + i`, and the member `packets`.
pub record Reading : Type 0 where
  pub number : ℕ
  pub len : ℕ
  pub time : ℕ
  pub packets : List (ℕ × ℕ)

-- `baseSeqNumber + i` for the next `i`.
abbrev pub next_number : Reading → ℕ
next_number r = u32 (r.number + 1)

-- A packet that took `n` bytes of delta.
unfoldable pub received : Reading → ℕ → ℤ → Reading
unfolding add_delta insert
received r n delta = record {
  number = next_number r;
  len = r.len + n;
  time = add_delta r.time delta;
  packets = insert r.number (add_delta r.time delta) r.packets;
}

module _ (io : ByteIo) (b : Buffer) (base size : ℕ) where
  -- `while (statuses.size() < packetStatusCount)`; a round takes two bytes. `none` is the `return`
  -- where no chunk is left.
  unfoldable pub read_chunks : ℕ → ℕ → List ℕ → ℕ → Run (Option (List ℕ × ℕ))
  unfolding chunk_statuses
  read_chunks zero count statuses len =
      if ltb (length statuses) count then stuck else done (some (statuses, len))
  read_chunks (suc fuel) count statuses len =
      let more = read16 io b (base + len) >>= λ chunk.
      read_chunks fuel count (statuses ++ chunk_statuses chunk) (len + 2) in
      if ltb (length statuses) count
      then if ltb size (len + 2) then done none else more
      else done (some (statuses, len))

  -- The body of the `switch`; `none` is its `return`.
  unfoldable pub read_delta : ℕ → Reading → Run (Option Reading)
  unfolding received insert
  read_delta status r =
      let byte = read8 io b (base + r.len) >>= λ d. done (some (received r 1 (pos d))) in
      let short = read_short io b (base + r.len) >>= λ d. done (some (received r 2 d)) in
      if status == not_received
      then done (some (record r { number = next_number r; packets = insert r.number 0 r.packets }))
      else if status == small_delta
      then if ltb size (r.len + 1) then done none else byte
      else if status == large_or_negative_delta
      then if ltb size (r.len + 2) then done none else short
      else done (some (record r { number = next_number r }))

  -- The loop over `i`, with `n` rounds left and the statuses from `i` on. What was put into the
  -- member before a `return` stays there.
  unfoldable pub read_deltas : ℕ → List ℕ → Reading → Run (List (ℕ × ℕ))
  unfolding read_delta
  read_deltas zero statuses r = done r.packets
  read_deltas (suc n) [] r = fault out_of_bounds
  read_deltas (suc n) (status ∷ statuses) r = do
    next ← read_delta status r
    elim next [ none ↦ done r.packets | some r' ↦ read_deltas n statuses r' ]

  -- From the end of the first loop on.
  unfoldable pub read_packets : TransportCc → ℕ → ℕ → Option (List ℕ × ℕ) → Run TransportCc
  unfolding read_deltas
  read_packets t number count none = done t
  read_packets t number count (some (statuses, len)) = do
    packets ← read_deltas count statuses (record {
      number = number;
      len = len;
      time = u32 (t.reference_time * 64000);
      packets = t.packets;
    })
    done (record t { packets = packets })

  -- `Parse` on a size of 8 or more.
  unfoldable pub parse_block : TransportCc → Run TransportCc
  unfolding read_chunks read_packets
  parse_block t = do
    base_seq_number ← read32 io b base
    packet_status_count ← read16 io b (base + 2)
    reference ← read32 io b (base + 4)
    count ← read8 io b (base + 7)
    found ← read_chunks size packet_status_count [] 8
    read_packets
        (record t { reference_time = bit_and reference 0xFFFFFF00; feedback_packet_count = count })
        base_seq_number packet_status_count found

  -- `Parse(data, size)`
  unfoldable pub parse : TransportCc → Run TransportCc
  unfolding parse_block
  parse t = if ltb size 8 then done t else parse_block t
