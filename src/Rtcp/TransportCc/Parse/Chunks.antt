-- ===== src/Rtcp/TransportCc/Parse/Chunks.antt =====
-- The status chunks: the parser reads back the symbols that the writer packs.
use spadia.Common.{
  ℕ, zero, suc, ◌+◌, ◌*◌, ◌/◌, ◌^◌, ◌≤◌, ◌<◌, ◌≡◌, refl, sym, ◌∙◌, ap, ap₂, List, [], ◌∷◌, All,
  length, bit_and, bit_or, u16, ◌==◌, ne→==, false, arith,
}
use spadia.Common.Bits.{bit_or_fields, bit_and_mask}
use native.Mathlib.Nat.{pow-suc, one-le-pow, mul-le-mul_right, mul-add-div_right, div-eq_of_lt}
use spadia.Rtcp.TransportCc.{chunk_bits}
use spadia.Rtcp.TransportCc.Parse.{two_bit_statuses, chunk_statuses}

-- The `n` symbols of a chunk for the statuses that are left.
unfoldable pub symbols : ℕ → List ℕ → List ℕ
symbols zero ss = []
symbols (suc n) [] = 0 ∷ symbols n []
symbols (suc n) (s ∷ ss) = s ∷ symbols n ss

abbrev pub IsStatus : ℕ → Type 0
IsStatus s = s < 4

-- Symbols of two bits behind the number `h`.
joined : ℕ → List ℕ → ℕ
joined h [] = h
joined h (s ∷ ss) = joined (4 * h + s) ss

abbrev fours : ℕ → ℕ
fours n = 2 ^ (2 * n)

fours-suc : (n : ℕ) → fours (suc n) ≡ 4 * fours n
fours-suc n =
    let twice : 2 * suc n ≡ suc (suc (2 * n)) = omega arith in
    ap (λ (k : ℕ). 2 ^ k) twice ∙ omega (arith, pow-suc 2 (suc (2 * n)), pow-suc 2 (2 * n))

joined-split :
    (h : ℕ) (ss : List ℕ)
    → All IsStatus ss
    → (low : ℕ) × (low < fours (length ss)) × (joined h ss ≡ h * fours (length ss) + low)
unfolding joined
joined-split h [] all = (0, omega arith, omega arith)
joined-split h (s ∷ ss) (fits, all) =
    let (low, below, e) = joined-split (4 * h + s) ss all in
    (
      s * fours (length ss) + low,
      omega (
        arith,
        fours-suc (length ss),
        mul-le-mul_right {m = s} {n = 3} (fours (length ss)) (omega arith),
      ),
      e ∙ omega (arith, ap (λ (t : ℕ). h * t) (fours-suc (length ss))),
    )

joined-high : (h : ℕ) (ss : List ℕ) → All IsStatus ss → joined h ss / fours (length ss) ≡ h
joined-high h ss all =
    let (low, below, e) = joined-split h ss all in
    rw e (
      mul-add-div_right (omega (arith, one-le-pow (2 * length ss) 2)) h low
      ∙ omega (arith, div-eq_of_lt below))

bit_or_pair : (n h s : ℕ) → s < 4 → bit_or (h * fours (suc n)) (s * fours n) ≡ (4 * h + s) * fours n
bit_or_pair n h s fits =
    let twice : 2 * suc n ≡ suc (suc (2 * n)) = omega arith in
    let low : s * fours n < fours (suc n) = omega (
      arith,
      fours-suc n,
      one-le-pow (2 * n) 2,
      mul-le-mul_right {m = s} {n = 3} (fours n) (omega arith),
    ) in
    bit_or_fields (2 * suc n) h (s * fours n) low
    ∙ omega (arith, ap (λ (t : ℕ). h * t) (fours-suc n))

chunk_bits_nil : (n chunk : ℕ) → chunk_bits n [] chunk ≡ chunk
unfolding chunk_bits
chunk_bits_nil zero chunk = refl
chunk_bits_nil (suc n) chunk = refl

-- The writer.
chunk_bits-joined :
    (n h : ℕ) (ss : List ℕ)
    → All IsStatus ss
    → (h + 1) * fours n ≤ 2 ^ 16
    → chunk_bits n ss (h * fours n) ≡ joined h (symbols n ss)
unfolding chunk_bits symbols joined
chunk_bits-joined zero h ss all fits = omega arith
chunk_bits-joined (suc n) h [] all fits =
    let over : h * (4 * fours n) ≡ (4 * h + 0) * fours n = omega arith in
    ap (λ (t : ℕ). h * t) (fours-suc n)
    ∙ over
    ∙ sym (chunk_bits_nil n ((4 * h + 0) * fours n))
    ∙ chunk_bits-joined n (4 * h + 0) [] tt
        (omega (arith, fits, fours-suc n, ap (λ (t : ℕ). h * t) (fours-suc n)))
chunk_bits-joined (suc n) h (s ∷ ss) (small, all) fits =
    let room : (4 * h + s + 1) * fours n ≤ 2 ^ 16 = omega (
      arith,
      fits,
      ap (λ (t : ℕ). h * t) (fours-suc n),
      fours-suc n,
      mul-le-mul_right {m = s} {n = 3} (fours n) (omega arith),
    ) in
    let kept : u16 (bit_or (h * fours (suc n)) (s * fours n)) ≡ (4 * h + s) * fours n =
      omega (arith, bit_or_pair n h s small, room, one-le-pow (2 * n) 2) in
    rw kept (chunk_bits-joined n (4 * h + s) ss all room)

-- The reader.
two_bit_statuses-joined :
    (h : ℕ) (ss : List ℕ) → All IsStatus ss → two_bit_statuses (length ss) (joined h ss) ≡ ss
unfolding two_bit_statuses joined
two_bit_statuses-joined h [] all = refl
two_bit_statuses-joined h (s ∷ ss) (small, all) =
    ap₂ (λ x xs. x ∷ xs)
      (rw (joined-high (4 * h + s) ss all) (bit_and_mask 2 (4 * h + s) ∙ omega arith))
      (two_bit_statuses-joined (4 * h + s) ss all)

symbols-IsStatus : (n : ℕ) (ss : List ℕ) → All IsStatus ss → All IsStatus (symbols n ss)
unfolding symbols
symbols-IsStatus zero ss all = tt
symbols-IsStatus (suc n) [] all = (omega arith, symbols-IsStatus n [] tt)
symbols-IsStatus (suc n) (s ∷ ss) (small, all) = (small, symbols-IsStatus n ss all)

pub length-symbols : (n : ℕ) (ss : List ℕ) → length (symbols n ss) ≡ n
unfolding symbols
length-symbols zero ss = refl
length-symbols (suc n) [] = ap suc (length-symbols n [])
length-symbols (suc n) (s ∷ ss) = ap suc (length-symbols n ss)

module _ (ss : List ℕ) (all : All IsStatus ss) where
  chunk_bits-seven : chunk_bits 7 ss 0xC000 ≡ joined 3 (symbols 7 ss)
  chunk_bits-seven = chunk_bits-joined 7 3 ss all (omega arith)

  -- The chunk: two ones on top, and what follows them.
  chunk_top : chunk_bits 7 ss 0xC000 / 2 ^ 14 ≡ 3
  chunk_top = rw chunk_bits-seven (
      ap (λ n. joined 3 (symbols 7 ss) / fours n) (sym (length-symbols 7 ss))
      ∙ joined-high 3 (symbols 7 ss) (symbols-IsStatus 7 ss all))

  pub chunk_bits-lt : chunk_bits 7 ss 0xC000 < 2 ^ 16
  chunk_bits-lt = omega (arith, chunk_top)

  symbols_read : two_bit_statuses 7 (chunk_bits 7 ss 0xC000) ≡ symbols 7 ss
  symbols_read = rw chunk_bits-seven (
      ap (λ n. two_bit_statuses n (joined 3 (symbols 7 ss))) (sym (length-symbols 7 ss))
      ∙ two_bit_statuses-joined 3 (symbols 7 ss) (symbols-IsStatus 7 ss all))

  -- The parser reads the symbols that the writer put in.
  pub chunk_statuses-chunk_bits : chunk_statuses (chunk_bits 7 ss 0xC000) ≡ symbols 7 ss
  unfolding chunk_statuses
  chunk_statuses-chunk_bits =
      let vector : (chunk_bits 7 ss 0xC000 / 2 ^ 15 == 0) ≡ false =
        ne→== _ 0 (omega (arith, chunk_top)) in
      let pairs : (bit_and (chunk_bits 7 ss 0xC000 / 2 ^ 14) 1 == 0) ≡ false = rw chunk_top refl in
      rw (vector, pairs) symbols_read
