-- ===== src/Rtcp/TransportCc/Parse/Field.antt =====
-- `Serialize` as a whole on any number of packets, and the parser's loops on what it leaves.
use spadia.Common.{
  ℕ, zero, suc, ◌+◌, ◌-◌, ◌*◌, ◌/◌, ◌%◌, ◌^◌, ◌==◌, ◌≤◌, ◌<◌, ◌≡◌, refl, ◌∙◌, ap, inl, inr,
  Bool-cases, true, false, List, [], ◌∷◌, length, ne→==, ==→eq, ==-false→ne, u16, u32, ◌<<<◌,
  bit_and, done, arith,
}
use spadia.Common.Bits.{bit_and_mask}
use spadia.Memory.{Buffer, ByteIo, IsBigEndian}
use spadia.Memory.Access.{store-inside, stored, stored16, stored32, write16-inside, write32-inside}
use spadia.Rtcp.TransportCc.{
  TransportCc, Scan, write_reference, scan_received, scan, write_chunks, write_deltas, pad_loop,
  serialize_packets, serialize_from, serialize,
}
use spadia.Rtcp.TransportCc.Parse.Quantized.{epochs, IsSteady}
use spadia.Rtcp.TransportCc.Parse.Whole.{ReadsBack, Replays, Replays-ReadsBack, write_loops}

-- `n` up to a multiple of 4.
abbrev pub padded : ℕ → ℕ
padded n = (n + 3) / 4 * 4

pad_loop-padded :
    (fuel : ℕ) (b : Buffer) (base len : ℕ)
    → padded len ≤ len + fuel
    → base + padded len ≤ b.size
    → (b' : Buffer) × (pad_loop fuel b base len ≡ done (padded len, b'))
      × (b'.size ≡ b.size)
      × ((j : ℕ) → j < base + len → b'.bytes j ≡ b.bytes j)
unfolding pad_loop
pad_loop-padded zero b base len enough room =
    let even : len % 4 ≡ 0 = omega (arith, enough) in
    (b, rw even (ap (λ n. done (n, b)) (omega (arith, enough))), refl, λ j h. refl)
pad_loop-padded (suc fuel) b base len enough room = elim (Bool-cases (len % 4 == 0)) [
  | inl even ↦
      let e = ==→eq (len % 4) 0 even in
      (b, rw even (ap (λ n. done (n, b)) (omega (arith, e))), refl, λ j h. refl)
  | inr odd ↦
      let ne = ==-false→ne (len % 4) 0 odd in
      let (b', e, same_size, same) =
        pad_loop-padded fuel (stored b (base + len) 0) base (len + 1) (omega (arith, enough, ne))
          (omega (arith, room, ne)) in
      (
        b',
        rw (odd, store-inside b (base + len) 0 (omega (arith, room, ne)))
            (e ∙ ap (λ n. done (n, b')) (omega (arith, ne))),
        same_size,
        λ j h. same j (omega (arith, h)) ∙ rw (ne→== j (base + len) (omega (arith, h))) refl,
      )
]

-- The reference time in us, in the epochs that `k` counts.
abbrev pub reference : ℕ → ℕ → ℕ
reference k second = (second - epochs k) / 64000 * 64000

abbrev pub feedback : ℕ → ℕ → List (ℕ × ℕ) → TransportCc
feedback count reference_time packets = record {
  reference_time = reference_time;
  feedback_packet_count = count;
  packets = packets;
}

module _ (io : ByteIo) (count base k num second : ℕ) (ps : List (ℕ × ℕ))
    (early : epochs k + 250 ≤ second) (late : second < epochs k + 2 ^ 23 * 64000) where
  abbrev pub referred : Scan → Scan
  referred s = record s {
    block =
        stored16 io (stored32 io s.block (base + 4) (u32 (bit_and (second / 64000) 0x7FFFFF <<< 8)))
          (base + 7) count;
    len = s.len + 4;
    first_received = true;
    time = reference k second;
  }

  write_reference-referred :
      (s : Scan)
      → base + 9 ≤ s.block.size
      → write_reference io count base s second ≡ done (referred s)
  unfolding write_reference
  write_reference-referred s room =
      let mask : bit_and (second / 64000) 0x7FFFFF * 64000 ≡ reference k second =
        ap (λ x. x * 64000) (bit_and_mask 23 (second / 64000)) ∙ omega (arith, early, late) in
      rw (write32-inside io s.block (base + 4) _ (omega (arith, room))) (
        rw
          (write16-inside io
            (stored32 io s.block (base + 4) (u32 (bit_and (second / 64000) 0x7FFFFF <<< 8)))
            (base + 7) count (omega (arith, room)))
          (ap (λ t. done (record (referred s) { time = t })) mask))

  -- The first packet writes the reference, and then is one like the others.
  scan-referred :
      (s : Scan)
      → s.first_received ≡ false
      → base + 9 ≤ s.block.size
      → scan io count base ((num, second) ∷ ps) s
        ≡ scan io count base ((num, second) ∷ ps) (referred s)
  unfolding scan scan_received
  scan-referred s first room =
      rw (ne→== second 0 (omega (arith, early)), first, write_reference-referred s room) refl

  abbrev packets : List (ℕ × ℕ)
  packets = (num, second) ∷ ps

  -- The first loop's start, behind the two numbers in front.
  abbrev pub begun : Buffer → Scan
  begun b = record {
    block = stored16 io (stored16 io b base (u16 num)) (base + 2) (u16 (length packets));
    len = 4;
    first_received = false;
    time = 0;
    deltas = [];
    statuses = [];
  }

  serialize_parts :
      (reference_time : ℕ) (b : Buffer) (s1 : Scan) (at : ℕ) (b3 : Buffer) (end : ℕ) (b4 : Buffer)
      (len : ℕ) (b5 : Buffer)
      → base + 4 ≤ b.size
      → scan io count base packets (begun b) ≡ done s1
      → write_chunks io (length s1.statuses) s1.statuses s1.block (base + s1.len) ≡ done (at, b3)
      → write_deltas io s1.deltas b3 at ≡ done (base + end, b4)
      → pad_loop 3 b4 base end ≡ done (len, b5)
      → serialize io (feedback count reference_time packets) b base ≡ done (len, b5)
  unfolding serialize serialize_from serialize_packets
  serialize_parts reference_time b s1 at b3 end b4 len b5 room scanned chunks deltas pads =
      let end_same : base + end - base ≡ end = omega arith in
      rw
        (
          write16-inside io b base (u16 num) (omega (arith, room)),
          write16-inside io (stored16 io b base (u16 num)) (base + 2) (u16 (length packets))
              (omega (arith, room)),
          scanned,
          chunks,
          deltas,
          end_same,
        )
        pads

  module _ (steady : IsSteady k (second - epochs k) ps) where
    pub packets-IsSteady : IsSteady k (reference k second) packets
    packets-IsSteady =
        inr (early, omega (arith, late), omega (arith, early), omega (arith, early), steady)

    -- What `Serialize` leaves: the bytes in front as the first packet had them written, and the rest for
    -- the parser.
    pub serialize_written :
        (size reference_time : ℕ) (b : Buffer)
        → IsBigEndian io
        → 8 + 2 * ((length ps + 7) / 7) + 2 * (length ps + 1) + 3 ≤ size
        → base + size ≤ b.size
        → (len : ℕ) × (b' : Buffer) × (serialize io (feedback count reference_time packets) b base
            ≡ done (len, b'))
          × (len % 4 ≡ 0)
          × (len ≤ size)
          × (b'.size ≡ b.size)
          × ((j : ℕ) → j < base + 8 → b'.bytes j ≡ (referred (begun b)).block.bytes j)
          × Replays io k base size packets (reference k second) 8 b'
    serialize_written size reference_time b big room inside =
        let (s1, at, b3, end, b4, scanned, chunks, deltas, behind, short, same_size, front, reads) =
          write_loops io k count base size packets (referred (begun b)) big refl refl refl
            (omega (arith, late)) packets-IsSteady (omega (arith, room)) inside in
        let (b5, e5, size5, same5) =
          pad_loop-padded 3 b4 base end (omega arith)
            (omega (arith, room, short, same_size, inside)) in
        (
          padded end,
          b5,
          serialize_parts reference_time b s1 at b3 end b4 (padded end) b5
              (omega (arith, room, inside))
              (scan-referred (begun b) refl (omega (arith, room, inside)) ∙ scanned) chunks deltas
              e5,
          omega arith,
          omega (arith, room, short),
          size5 ∙ same_size,
          λ j h. same5 j (omega (arith, h, behind)) ∙ front j h,
          reads b5 size5 same5,
        )

    -- What `Serialize` leaves is read back. For packets that come at most 8 s apart, in any number and
    -- with any that was not received among them, the first one received in an epoch of even number (of
    -- 2 ^ 23 * 64 ms), on a field of `size` bytes with room for them, `Serialize` returns the length, a
    -- multiple of 4; and started behind the 8 bytes in front and from the reference time, the
    -- parser's loops have an entry for each packet in order, 0 for one that was not received and else a
    -- time less than 250 us from the packet's. The entries are numbered one after the other, whatever
    -- the packets' numbers are.
    pub serialize_read_back :
        (number size reference_time : ℕ) (b : Buffer)
        → IsBigEndian io
        → 8 + 2 * ((length ps + 7) / 7) + 2 * (length ps + 1) + 3 ≤ size
        → base + size ≤ b.size
        → number + length ps + 1 < 2 ^ 32
        → (len : ℕ) × (b' : Buffer) × (serialize io (feedback count reference_time packets) b base
            ≡ done (len, b'))
          × (len % 4 ≡ 0)
          × (len ≤ size)
          × ReadsBack io k number base size packets (reference k second) 8 b'
    serialize_read_back number size reference_time b big room inside number_fits =
        let (len, b', e, whole, short, _, _, reads) =
          serialize_written size reference_time b big room inside in
        (
          len,
          b',
          e,
          whole,
          short,
          Replays-ReadsBack io k base size packets (reference k second) 8 (omega (arith, late))
              packets-IsSteady (omega (arith, room)) number b' (omega (arith, number_fits)) reads,
        )
