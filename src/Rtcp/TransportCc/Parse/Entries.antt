-- ===== src/Rtcp/TransportCc/Parse/Entries.antt =====
-- The parser of transport feedback ends and stays inside the block, and what holds of each entry.
use spadia.Common.{
  u32, ℕ, zero, suc, ◌+◌, ◌*◌, ◌^◌, ◌≤◌, ◌<◌, ℤ, pos, negsuc, inl, inr, Bool-cases, List, [], ◌∷◌,
  All, ltb, ◌==◌, Option, none, some, length, done, Yields, Yields-bind, Yields-if, Yields-map,
  arith, ltb-false→le,
}
use spadia.Common.Dict.{insert-All, length-insert}
use spadia.Memory.{Buffer, ByteIo, read8, read_short}
use spadia.Memory.Access.{load-inside, read16-inside, read32-inside}
use spadia.Rtcp.TransportCc.{TransportCc, not_received, small_delta, large_or_negative_delta}
use spadia.Rtcp.TransportCc.Parse.{
  add_delta, Reading, received, read_chunks, read_delta, read_deltas, read_packets, parse_block,
  parse,
}

add_delta-lt : (time : ℕ) (d : ℤ) → add_delta time d < 2 ^ 64
unfolding add_delta
add_delta-lt time (pos d) = omega arith
add_delta-lt time (negsuc d) = omega arith

-- What is to hold of each entry, and of the number that comes with `n` rounds to go.
module _ (P : ℕ × ℕ → Type 0) (Q : ℕ → ℕ → Type 0)
    (put : (n number time : ℕ) → Q (suc n) number → time < 2 ^ 64 → P (number, time))
    (next : (n number : ℕ) → Q (suc n) number → Q n (u32 (number + 1))) (io : ByteIo) (b : Buffer)
    (base size : ℕ) (inside : base + size ≤ b.size) where
  abbrev IsReading : ℕ → Reading → Type 0
  IsReading n r = Q n r.number × All P r.packets

  -- What a round of the second loop may come to, with `n` rounds to go after it.
  abbrev Next : ℕ → Reading → Option Reading → Type 0
  Next n r none = Unit
  Next n r (some r') = IsReading n r' × (length r'.packets ≤ length r.packets + 1)

  -- Enough statuses, where the loop did not return.
  abbrev Enough : ℕ → Option (List ℕ × ℕ) → Type 0
  Enough count none = Unit
  Enough count (some (statuses, len)) = count ≤ length statuses

  read_chunks-Yields :
      (fuel count : ℕ) (statuses : List ℕ) (len : ℕ)
      → size + 1 < len + 2 * fuel
      → len ≤ size
      → Yields (Enough count) (read_chunks io b base size fuel count statuses len)
  unfolding read_chunks
  read_chunks-Yields zero count statuses len fuel_left below = absurd (omega arith)
  read_chunks-Yields (suc fuel) count statuses len fuel_left below =
      elim (Bool-cases (ltb (length statuses) count)) [
        | inr enough ↦ rw enough (ltb-false→le _ _ enough)
        | inl few ↦ elim (Bool-cases (ltb size (len + 2))) [
          | inl end ↦ rw (few, end) tt
          | inr more ↦
              let room : len + 2 ≤ size = ltb-false→le _ _ more in
              rw (few, more, read16-inside io b (base + len) (omega arith))
                (read_chunks-Yields fuel count _ (len + 2) (omega arith) room)
        ]
      ]

  received-Next :
      (left : ℕ) (r : Reading) (n : ℕ) (d : ℤ)
      → IsReading (suc left) r
      → Next left r (some (received r n d))
  unfolding received
  received-Next left r n d (fits, entries) = (
    (
      next left r.number fits,
      insert-All P r.number _ r.packets (put left r.number _ fits (add_delta-lt r.time d)) entries,
    ),
    length-insert r.number _ r.packets,
  )

  read_delta-Yields :
      (left status : ℕ) (r : Reading)
      → IsReading (suc left) r
      → Yields (Next left r) (read_delta io b base size status r)
  unfolding read_delta read8 read_short
  read_delta-Yields left status r (fits, entries) =
      Yields-if (Next left r) (status == not_received) _ _
        (λ _. (
          (
            next left r.number fits,
            insert-All P r.number 0 r.packets (put left r.number 0 fits (omega arith)) entries,
          ),
          length-insert r.number 0 r.packets,
        ))
        (λ _.
          Yields-if (Next left r) (status == small_delta) _ _
            (λ _.
              Yields-if (Next left r) (ltb size (r.len + 1)) _ _ (λ _. tt)
                (λ room.
                  let fits_one : r.len + 1 ≤ size = ltb-false→le _ _ room in
                  rw (load-inside b (base + r.len) (omega arith)) (
                    received-Next left r 1 (pos (io.read_u8 (b.bytes (base + r.len))))
                      (fits, entries))))
            (λ _.
              Yields-if (Next left r) (status == large_or_negative_delta) _ _
                (λ _.
                  Yields-if (Next left r) (ltb size (r.len + 2)) _ _ (λ _. tt)
                    (λ room.
                      let fits_two : r.len + 2 ≤ size = ltb-false→le _ _ room in
                      rw
                        (
                          load-inside b (base + r.len) (omega arith),
                          load-inside b (base + r.len + 1) (omega arith),
                        )
                        (received-Next left r 2
                          (io.read_s16 (b.bytes (base + r.len)) (b.bytes (base + r.len + 1)))
                          (fits, entries))))
                (λ _. ((next left r.number fits, entries), omega arith))))

  -- What the second loop leaves in the map.
  abbrev pub Filled : ℕ → List (ℕ × ℕ) → List (ℕ × ℕ) → Type 0
  Filled n before after = All P after × (length after ≤ length before + n)

  -- A round and the rounds after it.
  rounds-Yields :
      (n : ℕ) (statuses : List ℕ) (r : Reading)
      → IsReading (suc n) r
      → ((r' : Reading)
          → IsReading n r'
          → Yields (Filled n r'.packets) (read_deltas io b base size n statuses r'))
      → (after : Option Reading) → Next n r after
      → Yields (Filled (suc n) r.packets) (elim after [
        | none ↦ done r.packets
        | some r' ↦ read_deltas io b base size n statuses r'
      ])
  rounds-Yields n statuses r valid rest none h = (valid.1, omega arith)
  rounds-Yields n statuses r valid rest (some r') (valid', longer) =
      Yields-map (Filled n r'.packets) (Filled (suc n) r.packets) _ (rest r' valid')
        (λ m (entries, bound). (entries, omega arith))

  read_deltas-Yields :
      (n : ℕ) (statuses : List ℕ) (r : Reading)
      → n ≤ length statuses
      → IsReading n r
      → Yields (Filled n r.packets) (read_deltas io b base size n statuses r)
  unfolding read_deltas
  read_deltas-Yields zero statuses r enough (fits, entries) = (entries, omega arith)
  read_deltas-Yields (suc n) [] r enough valid = absurd (omega arith)
  read_deltas-Yields (suc n) (status ∷ statuses) r enough valid =
      Yields-bind (Next n r) (Filled (suc n) r.packets) (read_delta io b base size status r) _
        (read_delta-Yields n status r valid)
        (rounds-Yields n statuses r valid (λ r'. read_deltas-Yields n statuses r' (omega arith)))

  read_packets-Yields :
      (t : TransportCc) (number count : ℕ) (found : Option (List ℕ × ℕ))
      → Q count number
      → All P t.packets
      → Enough count found
      → Yields
          (λ t'. Filled count t.packets t'.packets)
          (read_packets io b base size t number count found)
  unfolding read_packets
  read_packets-Yields t number count none fits entries enough = (entries, omega arith)
  read_packets-Yields t number count (some (statuses, len)) fits entries enough =
      Yields-bind (Filled count t.packets) (λ t'. Filled count t.packets t'.packets) _ _
        (read_deltas-Yields count statuses _ enough (fits, entries)) (λ m filled. filled)

  -- `Parse` returns on any bytes and reads nothing outside its size; where `P` holds of the entries
  -- before, it does after.
  pub parse-Filled :
      (t : TransportCc)
      → All P t.packets
      → let count = io.read_u16 (b.bytes (base + 2)) (b.bytes (base + 2 + 1)) in
        Q count (
          io.read_u32 (b.bytes base) (b.bytes (base + 1)) (b.bytes (base + 2)) (b.bytes (base + 3)))
        → Yields (λ t'. Filled count t.packets t'.packets) (parse io b base size t)
  unfolding parse parse_block read8
  parse-Filled t entries first =
      Yields-if _ (ltb size 8) _ _ (λ _. (entries, omega arith))
        (λ whole.
          let room : 8 ≤ size = ltb-false→le _ _ whole in
          rw
            (
              read32-inside io b base (omega arith),
              read16-inside io b (base + 2) (omega arith),
              read32-inside io b (base + 4) (omega arith),
              load-inside b (base + 7) (omega arith),
            )
            (Yields-bind (Enough _) _ _ _ (read_chunks-Yields size _ [] 8 (omega arith) room)
              (λ found enough. read_packets-Yields _ _ _ found first entries enough)))
