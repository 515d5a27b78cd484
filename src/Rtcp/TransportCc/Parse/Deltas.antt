-- ===== src/Rtcp/TransportCc/Parse/Deltas.antt =====
-- The deltas in a block: the parser's second loop on what the writer's last loop stores.
use spadia.Common.{
  ℕ, ◌+◌, ◌-◌, ◌/◌, ◌%◌, ◌^◌, ◌≤◌, ◌<◌, ◌≡◌, refl, sym, ◌∙◌, ap, ap₂, subst, ℤ, pos, negsuc,
  Bool-cases, true, false, inl, inr, List, [], ◌∷◌, All, Option, none, some, leb, ==_refl, ne→==,
  ltb-false, lt→ltb, leb→le, if◌then◌else◌, u16, Run, ◌>>=◌, done, arith,
}
use spadia.Memory.{Buffer, ByteIo, IsBigEndian, signed16, write8, write16}
use spadia.Memory.Access.{stored, stored16, write8-inside, write16-inside}
use spadia.Rtcp.TransportCc.{
  not_received, small_delta, large_or_negative_delta, is_small, write_delta, write_deltas,
}

-- What the loops say of a packet: not received, or its delta.
abbrev pub Entry : Type 0
Entry = Option ℤ

abbrev pub status_of : Entry → ℕ
status_of none = not_received
status_of (some d) = if is_small d then small_delta else large_or_negative_delta

abbrev pub statuses_of : List Entry → List ℕ
statuses_of [] = []
statuses_of (e ∷ es) = status_of e ∷ statuses_of es

abbrev pub deltas_of : List Entry → List ℤ
deltas_of [] = []
deltas_of (none ∷ es) = deltas_of es
deltas_of (some d ∷ es) = d ∷ deltas_of es

abbrev pub bytes_for : ℤ → ℕ
bytes_for d = if is_small d then 1 else 2

abbrev pub bytes_for_all : List ℤ → ℕ
bytes_for_all [] = 0
bytes_for_all (d ∷ ds) = bytes_for d + bytes_for_all ds

-- A `short`.
abbrev pub IsShort : ℤ → Type 0
IsShort (pos d) = d < 2 ^ 15
IsShort (negsuc d) = d < 2 ^ 15

signed_pos : (d : ℕ) → d < 2 ^ 15 → signed16 (u16 d) ≡ pos d
signed_pos d h = ap signed16 {x = u16 d} {y = d} (omega (arith, h)) ∙ rw (lt→ltb d (2 ^ 15) h) refl

signed_negsuc : (d : ℕ) → d < 2 ^ 15 → signed16 (2 ^ 16 - 1 - d % 2 ^ 16) ≡ negsuc d
signed_negsuc d h =
    rw (ltb-false (2 ^ 16 - 1 - d % 2 ^ 16) (2 ^ 15) (omega (arith, h)))
      (ap negsuc (omega (arith, h)))

module _ (io : ByteIo) where
  -- A delta stands at `at`.
  abbrev pub Holds : Buffer → ℕ → ℤ → Type 0
  Holds b at d =
      if is_small d
      then pos (io.read_u8 (b.bytes at)) ≡ d
      else io.read_s16 (b.bytes at) (b.bytes (at + 1)) ≡ d

  abbrev pub HoldsAll : Buffer → ℕ → List ℤ → Type 0
  HoldsAll b at [] = Unit
  HoldsAll b at (d ∷ ds) = Holds b at d × HoldsAll b (at + bytes_for d) ds

  Holds-same :
      (b b' : Buffer) (at : ℕ) (d : ℤ)
      → ((j : ℕ) → j < at + bytes_for d → b'.bytes j ≡ b.bytes j)
      → Holds b at d
      → Holds b' at d
  Holds-same b b' at d same h = elim (Bool-cases (is_small d)) [
    | inl small ↦
        rw small (ap (λ x. pos (io.read_u8 x)) (same at (rw small (omega arith))) ∙ (rw small at h))
    | inr large ↦ rw large (
        ap₂ io.read_s16 (same at (rw large (omega arith))) (same (at + 1) (rw large (omega arith)))
        ∙ (rw large at h))
  ]

  pub HoldsAll-same :
      (b b' : Buffer) (at : ℕ) (ds : List ℤ)
      → ((j : ℕ) → j < at + bytes_for_all ds → b'.bytes j ≡ b.bytes j)
      → HoldsAll b at ds
      → HoldsAll b' at ds
  HoldsAll-same b b' at [] same h = tt
  HoldsAll-same b b' at (d ∷ ds) same (here, rest) = (
    Holds-same b b' at d (λ j below. same j (omega (arith, below))) here,
    HoldsAll-same b b' (at + bytes_for d) ds (λ j below. same j (omega (arith, below))) rest,
  )

  -- A write of a delta and nothing else.
  abbrev Stores : Run (ℕ × Buffer) → Buffer → ℕ → ℤ → Type 0
  Stores m b at d =
      (b' : Buffer) × (m ≡ done (at + bytes_for d, b'))
      × (b'.size ≡ b.size)
      × ((j : ℕ) → j < at → b'.bytes j ≡ b.bytes j)
      × Holds b' at d

  module _ (big : IsBigEndian io) where
    Stores-byte :
        (d : ℕ) (b : Buffer) (at : ℕ)
        → leb d 127 ≡ true
        → at + 1 ≤ b.size
        → Stores (write8 io b at d >>= λ b1. done (at + 1, b1)) b at (pos d)
    unfolding is_small
    Stores-byte d b at small room = (
      stored b at (io.write_u8 d),
      rw (write8-inside io b at d (omega arith), small) refl,
      refl,
      (λ j h. rw (ne→== j at (omega (arith, h))) refl),
      rw (small, ==_refl at)
          (ap pos (
            ap io.read_u8 (big.write_u8_lem d (omega (arith, leb→le d 127 small)))
            ∙ big.read_u8_lem d (omega (arith, leb→le d 127 small)))),
    )

    Stores-short :
        (d : ℤ) (w : ℕ) (b : Buffer) (at : ℕ)
        → is_small d ≡ false
        → w < 2 ^ 16
        → signed16 w ≡ d
        → at + 2 ≤ b.size
        → Stores (write16 io b at w >>= λ b1. done (at + 2, b1)) b at d
    Stores-short d w b at large fits same room = (
      stored16 io b at w,
      rw (write16-inside io b at w room, large) refl,
      refl,
      (λ j h. rw (ne→== j (at + 1) (omega (arith, h)), ne→== j at (omega (arith, h))) refl),
      rw
          (
            large,
            ne→== at (at + 1) (omega arith),
            ==_refl at,
            ==_refl (at + 1),
            big.write_u16_lem w fits,
          )
          (big.read_s16_lem (w / 256) (w % 256) (omega (arith, fits)) (omega arith)
            ∙ ap signed16 (omega arith)
            ∙ same),
    )

    write_delta-Stores :
        (d : ℤ) (b : Buffer) (at : ℕ)
        → IsShort d
        → at + bytes_for d ≤ b.size
        → Stores (write_delta io d b at) b at d
    unfolding write_delta is_small
    write_delta-Stores (pos d) b at short room = elim (Bool-cases (leb d 127)) [
      | inl small ↦
          let same : write_delta io (pos d) b at ≡ (write8 io b at d >>= λ b1. done (at + 1, b1)) =
            rw small refl in
          subst (λ m. Stores m b at (pos d)) (sym same)
            (Stores-byte d b at small (rw small at room))
      | inr large ↦
          let same : write_delta io (pos d) b at
              ≡ (write16 io b at (u16 d) >>= λ b1. done (at + 2, b1)) =
            rw large refl in
          subst (λ m. Stores m b at (pos d)) (sym same)
            (Stores-short (pos d) (u16 d) b at large (omega arith) (signed_pos d short)
              (rw large at room))
    ]
    write_delta-Stores (negsuc d) b at short room =
        Stores-short (negsuc d) (2 ^ 16 - 1 - d % 2 ^ 16) b at refl (omega arith)
          (signed_negsuc d short) room

    -- The loop over the deltas, from `at` on.
    pub write_deltas-HoldsAll :
        (ds : List ℤ) (b : Buffer) (at : ℕ)
        → All IsShort ds
        → at + bytes_for_all ds ≤ b.size
        → (b' : Buffer) × (write_deltas io ds b at ≡ done (at + bytes_for_all ds, b'))
          × (b'.size ≡ b.size)
          × ((j : ℕ) → j < at → b'.bytes j ≡ b.bytes j)
          × HoldsAll b' at ds
    unfolding write_deltas
    write_deltas-HoldsAll [] b at short room =
        (b, ap (λ e. done (e, b)) (omega arith), refl, λ j h. refl, tt)
    write_deltas-HoldsAll (d ∷ ds) b at (short, shorts) room =
        let (b1, e1, size1, before1, here) =
          write_delta-Stores d b at short (omega (arith, room)) in
        let (b', e, size2, before2, rest) =
          write_deltas-HoldsAll ds b1 (at + bytes_for d) shorts (omega (arith, room, size1)) in
        (
          b',
          rw (e1, e) (ap (λ i. done (i, b')) (omega arith)),
          size2 ∙ size1,
          (λ j h. before2 j (omega (arith, h)) ∙ before1 j h),
          (Holds-same b1 b' at d before2 here, rest),
        )
