-- ===== src/Memory/Access.antt =====
-- Reads and writes of blocks, and the blocks after a write.
use spadia.Common.{
  ◌∙◌, ap, ap₂, get_or, length, ne→==, ==_refl, ℕ, zero, suc, ◌+◌, ◌-◌, ◌≤◌, ◌<◌, ◌≡◌, refl, List,
  [], ◌∷◌, ltb, leb, ◌==◌, if◌then◌else◌, ◌&&◌, done, fault, out_of_bounds, arith, lt→ltb, le→leb,
  ltb→lt, Bool-cases, inl, inr,
}
use spadia.Memory.{
  Buffer, ByteIo, load, store, store_list, slice, copy, read16, read32, write8, write16, write32,
}

pub load-inside : (b : Buffer) (i : ℕ) → i < b.size → load b i ≡ done (b.bytes i)
unfolding load
load-inside b i h = rw (lt→ltb i b.size h)

abbrev pub stored : Buffer → ℕ → ℕ → Buffer
stored b i v = record b { bytes = λ j. if j == i then v else b.bytes j }

pub store-inside : (b : Buffer) (i v : ℕ) → i < b.size → store b i v ≡ done (stored b i v)
unfolding store
store-inside b i v h = rw (lt→ltb i b.size h)

module _ (io : ByteIo) (b : Buffer) (i : ℕ) where
  pub read16-inside :
      i + 2 ≤ b.size → read16 io b i ≡ done (io.read_u16 (b.bytes i) (b.bytes (i + 1)))
  unfolding read16
  read16-inside h = rw (lt→ltb i b.size (omega arith), lt→ltb (i + 1) b.size (omega arith))

  pub read32-inside :
      i + 4 ≤ b.size
      → read32 io b i
        ≡ done (io.read_u32 (b.bytes i) (b.bytes (i + 1)) (b.bytes (i + 2)) (b.bytes (i + 3)))
  unfolding read32
  read32-inside h = rw (
    lt→ltb i b.size (omega arith),
    lt→ltb (i + 1) b.size (omega arith),
    lt→ltb (i + 2) b.size (omega arith),
    lt→ltb (i + 3) b.size (omega arith),
  )

  pub read32-outside : b.size < i + 4 → read32 io b i ≡ fault out_of_bounds
  unfolding read32
  read32-outside h = ground arith

  pub write8-inside : (v : ℕ) → i < b.size → write8 io b i v ≡ done (stored b i (io.write_u8 v))
  unfolding write8
  write8-inside v h = rw (lt→ltb i b.size h)

  -- The block after the two bytes of a `uint16_t`.
  abbrev pub stored16 : ℕ → Buffer
  stored16 v = let (x, y) = io.write_u16 v in stored (stored b i x) (i + 1) y

  pub write16-inside : (v : ℕ) → i + 2 ≤ b.size → write16 io b i v ≡ done (stored16 v)
  unfolding write16
  write16-inside v h = rw (lt→ltb i b.size (omega arith), lt→ltb (i + 1) b.size (omega arith))

  abbrev pub stored32 : ℕ → Buffer
  stored32 v =
      let (x, y, z, w) = io.write_u32 v in
      stored (stored (stored (stored b i x) (i + 1) y) (i + 2) z) (i + 3) w

  pub write32-inside : (v : ℕ) → i + 4 ≤ b.size → write32 io b i v ≡ done (stored32 v)
  unfolding write32
  write32-inside v h = rw (
    lt→ltb i b.size (omega arith),
    lt→ltb (i + 1) b.size (omega arith),
    lt→ltb (i + 2) b.size (omega arith),
    lt→ltb (i + 3) b.size (omega arith),
  )

abbrev pub copied : Buffer → ℕ → Buffer → ℕ → ℕ → Buffer
copied to i from k n = record to {
  bytes = λ j. if leb i j && ltb j (i + n) then from.bytes (k + j - i) else to.bytes j;
}

pub copy-inside :
    (to : Buffer) (i : ℕ) (from : Buffer) (k n : ℕ)
    → i + n ≤ to.size
    → k + n ≤ from.size
    → copy to i from k n ≡ done (copied to i from k n)
unfolding copy
copy-inside to i from k n h g = rw (le→leb (i + n) to.size h, le→leb (k + n) from.size g)

-- The bytes `data[i .. i + n)` of a block that holds them all.
abbrev pub bytes_from : Buffer → ℕ → ℕ → List ℕ
bytes_from b i zero = []
bytes_from b i (suc n) = b.bytes i ∷ bytes_from b (i + 1) n

pub slice-inside : (b : Buffer) (i n : ℕ) → i + n ≤ b.size → slice b i n ≡ done (bytes_from b i n)
unfolding slice
slice-inside b i zero h = refl
slice-inside b i (suc n) h =
    rw (load-inside b i (omega arith), slice-inside b (i + 1) n (omega arith))

pub slice-outside :
    (b : Buffer) (i n : ℕ) → 0 < n → b.size < i + n → slice b i n ≡ fault out_of_bounds
unfolding slice load
slice-outside b i zero some h = absurd (omega arith)
slice-outside b i (suc n) some h = elim (Bool-cases (ltb i b.size)) [
  | inl e ↦ rw (e, slice-outside b (i + 1) n (omega (arith, ltb→lt i b.size e)) (omega arith)) refl
  | inr e ↦ rw e refl
]

pub read16-outside :
    (io : ByteIo) (b : Buffer) (i : ℕ) → b.size < i + 2 → read16 io b i ≡ fault out_of_bounds
unfolding read16
read16-outside io b i h = ground arith

-- The block after the bytes of a list.
abbrev pub stored_all : Buffer → ℕ → List ℕ → Buffer
stored_all b i [] = b
stored_all b i (x ∷ xs) = stored_all (stored b i x) (i + 1) xs

pub stored_all-size : (b : Buffer) (i : ℕ) (xs : List ℕ) → (stored_all b i xs).size ≡ b.size
stored_all-size b i [] = refl
stored_all-size b i (x ∷ xs) = stored_all-size (stored b i x) (i + 1) xs

pub store_list-inside :
    (b : Buffer) (i : ℕ) (xs : List ℕ)
    → i + length xs ≤ b.size
    → store_list b i xs ≡ done (stored_all b i xs)
unfolding store_list
store_list-inside b i [] h = refl
store_list-inside b i (x ∷ xs) h =
    rw (lt→ltb i b.size (omega arith)) (store_list-inside (stored b i x) (i + 1) xs (omega arith))

pub stored_all-before :
    (b : Buffer) (i : ℕ) (xs : List ℕ) (j : ℕ) → j < i → (stored_all b i xs).bytes j ≡ b.bytes j
stored_all-before b i [] j h = refl
stored_all-before b i (x ∷ xs) j h =
    stored_all-before (stored b i x) (i + 1) xs j (omega arith) ∙ rw (ne→== j i (omega arith)) refl

pub stored_all-at :
    (b : Buffer) (i : ℕ) (xs : List ℕ) (j : ℕ)
    → j < length xs
    → (stored_all b i xs).bytes (i + j) ≡ get_or xs j 0
stored_all-at b i [] j h = absurd (omega arith)
stored_all-at b i (x ∷ xs) zero h =
    stored_all-before (stored b i x) (i + 1) xs (i + 0) (omega arith)
    ∙ ground (arith, ==_refl (i + 0))
stored_all-at b i (x ∷ xs) (suc j) h =
    ap (stored_all (stored b i x) (i + 1) xs).bytes (omega arith)
    ∙ stored_all-at (stored b i x) (i + 1) xs j (omega arith)

pub bytes_from-same :
    (b b' : Buffer) (i n : ℕ)
    → ((j : ℕ) → j < i + n → b.bytes j ≡ b'.bytes j)
    → bytes_from b i n ≡ bytes_from b' i n
bytes_from-same b b' i zero same = refl
bytes_from-same b b' i (suc n) same =
    ap₂ (λ x xs. x ∷ xs) (same i (omega arith))
      (bytes_from-same b b' (i + 1) n (λ j below. same j (omega arith)))
