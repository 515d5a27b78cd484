-- ===== src/Rtcp/TransportCc/Parse/Serialized.antt =====
-- `Parse` as a whole on what `Serialize` writes: what becomes of the number, the reference time and
-- the packets.
use spadia.Common.{
  ℕ, suc, ◌+◌, ◌-◌, ◌*◌, ◌/◌, ◌%◌, ◌^◌, ◌≤◌, ◌<◌, ◌≡◌, refl, sym, ◌∙◌, ap, subst, List, [], ◌∷◌,
  length, ltb-false, u16, u32, u64, bit_and, ◌<<<◌, done, arith,
}
use spadia.Common.Bits.{bit_and_mask, bit_and_shifted}
use spadia.Memory.{Buffer, ByteIo, IsBigEndian, read8, read16, read32}
use spadia.Memory.Access.{read16-inside, read32-inside, load-inside}
use spadia.Rtcp.TransportCc.{serialize}
use spadia.Rtcp.TransportCc.Parse.{parse, parse_block, read_packets}
use spadia.Rtcp.TransportCc.Parse.Field.{
  referred, begun, feedback, reference, packets-IsSteady, serialize_written,
}
use spadia.Rtcp.TransportCc.Parse.Replay.{replay}
use spadia.Rtcp.TransportCc.Parse.Quantized.{epochs, IsClose, IsSteady}
use spadia.Rtcp.TransportCc.Parse.Moved.{listing, replay-listing, IsMoved, listing-IsMoved}
use spadia.Rtcp.TransportCc.Parse.Whole.{Replays}
use spadia.Rtcp.TransportCc.Parse.Times.{
  entries, length-entries, entries-IsShort, replay-IsNear, IsNear,
}

module _ (io : ByteIo) (big : IsBigEndian io) (count base k num second : ℕ) (ps : List (ℕ × ℕ))
    (b : Buffer) (early : epochs k + 250 ≤ second) (late : second < epochs k + 2 ^ 23 * 64000)
    (fits : num < 2 ^ 16) (small : count < 256) (many : length ps + 1 < 2 ^ 16) where
  -- The reference time as it is written, in units of 64 ms.
  abbrev units : ℕ
  units = second / 64000 % 2 ^ 23

  abbrev front : Buffer
  front =
      (referred io count base k num second ps early late
        (begun io count base k num second ps early late b)).block

  units_written : u32 (bit_and (second / 64000) 0x7FFFFF <<< 8) ≡ units * 256
  units_written = ap (λ x. u32 (x <<< 8)) (bit_and_mask 23 (second / 64000)) ∙ omega arith

  numbers_in_front :
      (front.bytes base ≡ num / 256)
      × (front.bytes (base + 1) ≡ num % 256)
      × (front.bytes (base + 2) ≡ (length ps + 1) / 256)
      × (front.bytes (base + 3) ≡ (length ps + 1) % 256)
  numbers_in_front =
      rw
        (
          units_written,
          big.write_u16_lem (u16 num) (omega arith),
          big.write_u16_lem (u16 (suc (length ps))) (omega arith),
          big.write_u16_lem count (omega arith),
          big.write_u32_lem (units * 256) (omega arith),
        )
        (ground arith, ground arith, ground arith, ground arith)

  times_in_front :
      (front.bytes (base + 4) ≡ units / 2 ^ 16)
      × (front.bytes (base + 5) ≡ units / 2 ^ 8 % 256)
      × (front.bytes (base + 6) ≡ units % 256)
      × (front.bytes (base + 7) ≡ 0)
  times_in_front =
      rw
        (
          units_written,
          big.write_u16_lem (u16 num) (omega arith),
          big.write_u16_lem (u16 (suc (length ps))) (omega arith),
          big.write_u16_lem count (omega arith),
          big.write_u32_lem (units * 256) (omega arith),
        )
        (ground arith, ground arith, ground arith, ground arith)

  module _ (b' : Buffer) (same : (j : ℕ) → j < base + 8 → b'.bytes j ≡ front.bytes j)
      (inside : base + 8 ≤ b'.size) where
    byte_at : (j at v : ℕ) → at ≡ j → j < base + 8 → front.bytes j ≡ v → b'.bytes at ≡ v
    byte_at j at v e h found = ap b'.bytes e ∙ same j h ∙ found

    first_read : read32 io b' base ≡ done (num * 2 ^ 16 + length ps + 1)
    first_read =
        let (b0, b1, b2, b3) = numbers_in_front in
        read32-inside io b' base (omega (arith, inside))
        ∙ rw
            (
              byte_at base base _ refl (omega arith) b0,
              byte_at (base + 1) (base + 1) _ refl (omega arith) b1,
              byte_at (base + 2) (base + 2) _ refl (omega arith) b2,
              byte_at (base + 3) (base + 3) _ refl (omega arith) b3,
              big.read_u32_lem (num / 256) (num % 256) ((length ps + 1) / 256)
                  ((length ps + 1) % 256) (omega (arith, fits)) (omega arith) (omega (arith, many))
                  (omega arith),
            )
            (ap done (omega (arith, fits, many)))

    count_read : read16 io b' (base + 2) ≡ done (suc (length ps))
    count_read =
        let (b0, b1, b2, b3) = numbers_in_front in
        read16-inside io b' (base + 2) (omega (arith, inside))
        ∙ rw
            (
              byte_at (base + 2) (base + 2) _ refl (omega arith) b2,
              byte_at (base + 3) (base + 2 + 1) _ (omega arith) (omega arith) b3,
              big.read_u16_lem ((length ps + 1) / 256) ((length ps + 1) % 256) (omega (arith, many))
                  (omega arith),
            )
            (ap done (omega (arith, many)))

    time_read : read32 io b' (base + 4) ≡ done (units * 256)
    time_read =
        let (b4, b5, b6, b7) = times_in_front in
        read32-inside io b' (base + 4) (omega (arith, inside))
        ∙ rw
            (
              byte_at (base + 4) (base + 4) _ refl (omega arith) b4,
              byte_at (base + 5) (base + 4 + 1) _ (omega arith) (omega arith) b5,
              byte_at (base + 6) (base + 4 + 2) _ (omega arith) (omega arith) b6,
              byte_at (base + 7) (base + 4 + 3) _ (omega arith) (omega arith) b7,
              big.read_u32_lem (units / 2 ^ 16) (units / 2 ^ 8 % 256) (units % 256) 0 (omega arith)
                  (omega arith) (omega arith) (omega arith),
            )
            (ap done (omega arith))

    packet_count_read : read8 io b' (base + 7) ≡ done 0
    unfolding read8
    packet_count_read =
        let (b4, b5, b6, b7) = times_in_front in
        rw
          (
            load-inside b' (base + 7) (omega (arith, inside)),
            byte_at (base + 7) (base + 7) _ refl (omega arith) b7,
            big.read_u8_lem 0 (omega arith),
          )
          refl

    masked : bit_and (units * 256) 0xFFFFFF00 ≡ units * 256
    masked =
        bit_and_shifted 8 (units * 256) 0xFFFFFF
        ∙ ap (λ x. x * 256) (bit_and_mask 24 (units * 256 / 256))
        ∙ omega arith

    -- `Parse` behind its four reads.
    parse-replayed :
        (size : ℕ)
        → 8 ≤ size
        → Replays io k base size ((num, second) ∷ ps) (reference k second) 8 b'
        → parse io b' base size (feedback 0 0 [])
          ≡ done (record {
            reference_time = units * 256;
            feedback_packet_count = 0;
            packets =
                replay
                  (num * 2 ^ 16 + length ps + 1)
                  (u32 (units * 256 * 64000))
                  []
                  (entries k (reference k second) ((num, second) ∷ ps));
          })
    unfolding parse parse_block read_packets
    parse-replayed size room (found, stop, read, deltas) =
        rw
          (
            ltb-false size 8 room,
            first_read,
            count_read,
            time_read,
            packet_count_read,
            masked,
            read,
            deltas (num * 2 ^ 16 + length ps + 1) (u32 (units * 256 * 64000)),
          )
          refl

  -- From the packets' times to those that `Parse` makes of them.
  abbrev pub displacement : ℕ
  displacement = u32 (units * 256 * 64000) + 2 ^ 64 - reference k second

  module _ (steady : IsSteady k (second - epochs k) ps)
      (number_fits : num * 2 ^ 16 + 2 * (length ps + 1) < 2 ^ 32) where
    replay-IsMoved : IsMoved k displacement (num * 2 ^ 16 + length ps + 1) ((num, second) ∷ ps) (
        replay
          (num * 2 ^ 16 + length ps + 1)
          (u32 (units * 256 * 64000))
          []
          (entries k (reference k second) ((num, second) ∷ ps)))
    replay-IsMoved =
        let n = num * 2 ^ 16 + length ps + 1 in
        let time = reference k second in
        let packets = (num, second) ∷ ps in
        let es = entries k time packets in
        let many_es : length es ≡ suc (length ps) = length-entries k time packets in
        let start : u32 (units * 256 * 64000) ≡ u64 (time + displacement) = omega (arith, late) in
        let close : IsClose time time = (omega arith, omega arith) in
        let all_steady = packets-IsSteady io count base k num second ps early late steady in
        let (qs, replayed, near) =
          replay-IsNear k n time time [] packets (omega (arith, number_fits)) close
            (omega (arith, late)) all_steady tt in
        let listed : qs ≡ listing n time es =
          sym replayed ∙ replay-listing n time [] es (omega (arith, number_fits, many_es)) tt in
        let short = entries-IsShort k time time packets close (omega (arith, late)) all_steady in
        let at_start =
          replay-listing n (u64 (time + displacement)) [] es (omega (arith, number_fits, many_es))
            tt in
        subst (λ t. IsMoved k displacement n packets (replay n t [] es)) (sym start)
          (subst (IsMoved k displacement n packets) (sym at_start) (
            listing-IsMoved k displacement n n time packets short
              (subst (IsNear k n packets) listed near)))

    -- `Parse` on what `Serialize` leaves. For packets as `serialize_read_back` has them, fewer than
    -- 2 ^ 16 with 16-bit numbers, both return, and a new field is left with an entry for each packet
    -- in order, 0 for one that was not received, but with every other value misread: the numbers count from
    -- 2 ^ 16 times the first number plus the packet status count, the reference time is 256 times what was
    -- meant, the feedback packet count is 0, and each time is displaced by one and the same number of us
    -- (modulo 2 ^ 64) from a time less than 250 us from the packet's.
    pub parse-serialize-IsMoved :
        (size reference_time : ℕ)
        → 8 + 2 * ((length ps + 7) / 7) + 2 * (length ps + 1) + 3 ≤ size
        → base + size ≤ b.size
        → (len : ℕ) × (b' : Buffer) × (qs : List (ℕ × ℕ)) × (serialize io
              (feedback count reference_time ((num, second) ∷ ps))
              b
              base
            ≡ done (len, b'))
          × (parse io b' base size (feedback 0 0 []) ≡ done (feedback 0 (units * 256) qs))
          × IsMoved k displacement (num * 2 ^ 16 + length ps + 1) ((num, second) ∷ ps) qs
    parse-serialize-IsMoved size reference_time room inside =
        let (len, b', e, _, _, same_size, same, reads) =
          serialize_written io count base k num second ps early late steady size reference_time b
            big room inside in
        (
          len,
          b',
          _,
          e,
          parse-replayed b' same (omega (arith, inside, room, same_size)) size (omega (arith, room))
              reads,
          replay-IsMoved,
        )
