-- ===== src/Rtcp/TransportCc/Parse/RoundTrip.antt =====
-- The chunks in a block: the parser's first loop on what the writer's loop stores.
use spadia.Common.{
  ℕ, zero, suc, ◌+◌, ◌-◌, ◌*◌, ◌/◌, ◌≤◌, ◌<◌, ◌≡◌, refl, sym, ◌∙◌, ap, ap₂, ◌⊎◌, inl, inr, List, [],
  ◌∷◌, ◌++◌, All, length, length-append, replicate, some, ltb, ==_refl, ne→==, lt→ltb, ltb-false,
  ltb→lt, ltb-false→le, Bool-cases, done, arith,
}
use mathlib.Core.List.{append-nil, append_assoc}
use spadia.Memory.{Buffer, ByteIo, IsBigEndian}
use spadia.Memory.Access.{read16-inside, write16-inside, stored16}
use spadia.Memory.Endian.{read_u16-write_u16}
use spadia.Rtcp.TransportCc.{chunk_bits, drop, write_chunks}
use spadia.Rtcp.TransportCc.Parse.{read_chunks}
use spadia.Rtcp.TransportCc.Parse.Chunks.{
  symbols, IsStatus, length-symbols, chunk_bits-lt, chunk_statuses-chunk_bits,
}

length-drop : (n : ℕ) (ss : List ℕ) → length (drop n ss) ≡ length ss - n
unfolding drop
length-drop zero ss = omega arith
length-drop (suc n) [] = omega arith
length-drop (suc n) (s ∷ ss) = length-drop n ss ∙ omega arith

drop-IsStatus : (n : ℕ) (ss : List ℕ) → All IsStatus ss → All IsStatus (drop n ss)
unfolding drop
drop-IsStatus zero ss all = all
drop-IsStatus (suc n) [] all = tt
drop-IsStatus (suc n) (s ∷ ss) (small, all) = drop-IsStatus n ss all

symbols_nil : (n : ℕ) → symbols n [] ++ [] ≡ replicate n 0
unfolding symbols
symbols_nil zero = refl
symbols_nil (suc n) = ap (λ t. 0 ∷ t) (symbols_nil n)

-- The symbols of a chunk and what is behind them are the statuses, filled up with zeros where the
-- chunk is the last one.
refill :
    (n k : ℕ) (ss : List ℕ)
    → (length ss ≤ n → k ≡ 0)
    → (k' : ℕ) × (symbols n ss ++ (drop n ss ++ replicate k 0) ≡ ss ++ replicate k' 0)
      × ((k' ≡ k) ⊎ (k' + length ss ≡ n))
unfolding symbols drop
refill zero k ss last = (k, refl, inl refl)
refill (suc n) k [] last =
    (suc n, rw (last (omega arith)) (ap (λ t. 0 ∷ t) (symbols_nil n)), inr (omega arith))
refill (suc n) k (s ∷ ss) last =
    let (k', e, short) = refill n k ss (λ h. last (omega (arith, h))) in
    (
      k',
      ap (λ t. s ∷ t) e,
      elim short [ inl same ↦ inl same | inr fill ↦ inr (omega (arith, fill)) ],
    )

-- How many statuses the reader waits for, with `left` of them to come.
abbrev pub Due : ℕ → ℕ → ℕ → Type 0
Due count got left = (count ≡ got + left) ⊎ ((left ≡ 0) × (count ≤ got))

Due-drop : (count got left : ℕ) → count ≡ got + suc left → Due count (got + 7) (suc left - 7)
Due-drop count got left h = elim (Bool-cases (ltb left 6)) [
  | inl last ↦ inr (omega (arith, ltb→lt left 6 last), omega (arith, ltb→lt left 6 last))
  | inr more ↦ inl (omega (arith, ltb-false→le left 6 more))
]

abbrev pub rounds : List ℕ → ℕ
rounds ss = (length ss + 6) / 7

module _ (io : ByteIo) (big : IsBigEndian io) where
  -- The reader's loop, after `before`, on a block in which the chunks begin at `base + len`.
  abbrev pub Reads : Buffer → ℕ → List ℕ → ℕ → Type 0
  Reads b at ss k =
      (base size fuel count len : ℕ) (before : List ℕ)
      → base + len ≡ at
      → at + 2 * rounds ss ≤ base + size
      → rounds ss ≤ fuel
      → Due count (length before) (length ss)
      → read_chunks io b base size fuel count before len
        ≡ done (some (before ++ (ss ++ replicate k 0), len + 2 * rounds ss))

  -- A block in which the chunks are written, and nothing in front of them is changed.
  abbrev pub Written : Buffer → ℕ → List ℕ → Buffer → ℕ → Type 0
  Written b at ss b' k =
      (b'.size ≡ b.size)
      × ((j : ℕ) → j < at → b'.bytes j ≡ b.bytes j)
      × (k < 7)
      × (length ss ≡ 0 → k ≡ 0)
      × Reads b' at ss k

  read_chunks_end :
      (b : Buffer) (base size fuel count len : ℕ) (before : List ℕ)
      → count ≤ length before
      → read_chunks io b base size fuel count before len ≡ done (some (before, len))
  unfolding read_chunks
  read_chunks_end b base size zero count len before h = rw (ltb-false (length before) count h)
  read_chunks_end b base size (suc fuel) count len before h = rw (ltb-false (length before) count h)

  Reads-nil : (b : Buffer) (at : ℕ) → Reads b at [] 0
  Reads-nil b at base size fuel count len before start end some_fuel due =
      let enough : count ≤ length before = elim due [
        | inl same ↦ omega (arith, same)
        | inr (_, less) ↦ less
      ] in
      read_chunks_end b base size fuel count len before enough
      ∙ ap₂ (λ xs n. done (some (xs, n))) (sym (append-nil before)) (omega arith)

  -- A chunk in front of others.
  Reads-cons :
      (b : Buffer) (at k k' s : ℕ) (ss : List ℕ)
      → All IsStatus (s ∷ ss)
      → at + 2 ≤ b.size
      → io.read_u16 (b.bytes at) (b.bytes (at + 1)) ≡ chunk_bits 7 (s ∷ ss) 0xC000
      → Reads b (at + 2) (drop 7 (s ∷ ss)) k
      → symbols 7 (s ∷ ss) ++ (drop 7 (s ∷ ss) ++ replicate k 0) ≡ s ∷ ss ++ replicate k' 0
      → Reads b at (s ∷ ss) k'
  unfolding read_chunks
  Reads-cons b at k k' s ss all room word reads filled base size zero count len before start end
        some_fuel due =
      absurd (omega arith)
  Reads-cons b at k k' s ss all room word reads filled base size (suc fuel) count len before start
        end some_fuel due =
      let waiting : count ≡ length before + suc (length ss) = elim due [
        | inl same ↦ same
        | inr (empty, _) ↦ absurd (omega (arith, empty))
      ] in
      let left : length (drop 7 (s ∷ ss)) ≡ suc (length ss) - 7 = length-drop 7 (s ∷ ss) in
      let next_due : Due count (length (before ++ symbols 7 (s ∷ ss))) (length (drop 7 (s ∷ ss))) =
        rw (length-append before (symbols 7 (s ∷ ss)), length-symbols 7 (s ∷ ss), left)
          (Due-drop count (length before) (length ss) waiting) in
      let here : io.read_u16 (b.bytes (base + len)) (b.bytes (base + len + 1))
          ≡ chunk_bits 7 (s ∷ ss) 0xC000 =
        ap (λ i. io.read_u16 (b.bytes i) (b.bytes (i + 1))) start ∙ word in
      rw
        (
          lt→ltb (length before) count (omega arith),
          ltb-false size (len + 2) (omega arith),
          read16-inside io b (base + len) (omega arith),
          here,
          chunk_statuses-chunk_bits (s ∷ ss) all,
        )
        (reads base size fuel count (len + 2) (before ++ symbols 7 (s ∷ ss)) (omega arith)
            (omega (arith, left)) (omega (arith, left)) next_due
          ∙ ap₂ (λ xs n. done (some (xs, n)))
              (append_assoc before (symbols 7 (s ∷ ss)) _ ∙ ap (λ t. before ++ t) filled)
              (omega (arith, left)))

  Written-cons :
      (b b' : Buffer) (at k s : ℕ) (ss : List ℕ)
      → All IsStatus (s ∷ ss)
      → at + 2 * rounds (s ∷ ss) ≤ b.size
      → Written (stored16 io b at (chunk_bits 7 (s ∷ ss) 0xC000)) (at + 2) (drop 7 (s ∷ ss)) b' k
      → (k' : ℕ) × Written b at (s ∷ ss) b' k'
  Written-cons b b' at k s ss all room (same_size, same, below, last, reads) =
      let left : length (drop 7 (s ∷ ss)) ≡ suc (length ss) - 7 = length-drop 7 (s ∷ ss) in
      let (k', filled, which) = refill 7 k (s ∷ ss) (λ short. last (omega (arith, left, short))) in
      let word : io.read_u16 (b'.bytes at) (b'.bytes (at + 1)) ≡ chunk_bits 7 (s ∷ ss) 0xC000 =
        ap₂ io.read_u16
          (same at (omega arith) ∙ rw (ne→== at (at + 1) (omega arith), ==_refl at) refl)
          (same (at + 1) (omega arith) ∙ rw (==_refl (at + 1)) refl)
        ∙ read_u16-write_u16 io big _ (chunk_bits-lt (s ∷ ss) all) in
      (
        k',
        (
          same_size,
          (λ j h.
              same j (omega (arith, h))
              ∙ rw (ne→== j (at + 1) (omega (arith, h)), ne→== j at (omega (arith, h))) refl),
          elim which [ inl kept ↦ omega (arith, kept, below) | inr fill ↦ omega (arith, fill) ],
          (λ empty. cc),
          Reads-cons b' at k k' s ss all (omega (arith, same_size)) word reads filled,
        ),
      )

  pub write_chunks-Written :
      (fuel : ℕ) (ss : List ℕ) (b : Buffer) (at : ℕ)
      → All IsStatus ss
      → length ss ≤ fuel
      → at + 2 * rounds ss ≤ b.size
      → (b' : Buffer) × (k : ℕ) × (write_chunks io fuel ss b at ≡ done (at + 2 * rounds ss, b'))
        × Written b at ss b' k
  unfolding write_chunks
  write_chunks-Written fuel [] b at all enough room = (
    b,
    0,
    ap (λ e. done (e, b)) (omega arith),
    (refl, λ j h. refl, omega arith, λ h. refl, Reads-nil b at),
  )
  write_chunks-Written zero (s ∷ ss) b at all enough room = absurd (omega arith)
  write_chunks-Written (suc fuel) (s ∷ ss) b at all enough room =
      let chunk = chunk_bits 7 (s ∷ ss) 0xC000 in
      let rest = drop 7 (s ∷ ss) in
      let left : length rest ≡ suc (length ss) - 7 = length-drop 7 (s ∷ ss) in
      let (b', k, e, written) =
        write_chunks-Written fuel rest (stored16 io b at chunk) (at + 2)
          (drop-IsStatus 7 (s ∷ ss) all) (omega (arith, left)) (omega (arith, left)) in
      let (k', written') = Written-cons b b' at k s ss all room written in
      (
        b',
        k',
        rw (write16-inside io b at chunk (omega arith), e)
            (ap (λ i. done (i, b')) (omega (arith, left))),
        written',
      )

  -- Statuses of two bits that are written from `base + len` on are read back from there, with at most
  -- six zeros behind them, and the reader stops where the writer did: for any number of statuses, in
  -- any block that has room for a chunk for each seven of them.
  read_chunks-write_chunks :
      (ss : List ℕ) (b : Buffer) (base size len : ℕ)
      → All IsStatus ss
      → len + 2 * rounds ss ≤ size
      → base + size ≤ b.size
      → (b' : Buffer) × (k : ℕ) × (write_chunks io (length ss) ss b (base + len)
          ≡ done (base + len + 2 * rounds ss, b'))
        × (k < 7)
        × (read_chunks io b' base size size (length ss) [] len
            ≡ done (some (ss ++ replicate k 0, len + 2 * rounds ss)))
  read_chunks-write_chunks ss b base size len all fits inside =
      let (b', k, e, (_, _, below, _, reads)) =
        write_chunks-Written (length ss) ss b (base + len) all (omega arith) (omega arith) in
      (
        b',
        k,
        e,
        below,
        reads base size size (length ss) len [] refl (omega arith) (omega arith)
            (inl (omega arith)),
      )
