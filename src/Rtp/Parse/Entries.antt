-- ===== src/Rtp/Parse/Entries.antt =====
-- The header extensions of `RTPPacket::Parse`, rtp_packet.cpp: the loop, and what it stores.
use spadia.Common.{
  ℕ, zero, suc, ◌+◌, ◌*◌, ◌≤◌, ◌<◌, ◌≡◌, refl, sym, ◌∙◌, [], some, Bool, true, false, not, ◌&&◌,
  ◌||◌, List, ltb, ◌==◌, done, Yields, Yields-bind, inl, inr, All, Bool-cases, ltb→lt, lt→ltb,
  arith,
}
use spadia.Common.Dict.{insert, insert-All, lookup, lookup-All}
use spadia.Memory.{Buffer, load}
use spadia.Rtp.Packet.{RtpExtension}
use spadia.Rtp.Parse.{
  one_byte_profile, two_byte_profile, header_length, read_entry, ends_entries, entries_loop,
  read_entries,
}

-- What holds of every entry of a map of extensions.
abbrev pub Each : (RtpExtension → Type 0) → List (ℕ × RtpExtension) → Type 0
Each P = All (λ (x : ℕ × RtpExtension). P x.1)

header_length_pos : (o : Bool) → 1 ≤ header_length o
header_length_pos o = ground arith

or_false_le : (b : Bool) (m n : ℕ) → (b || ltb m n) ≡ false → n ≤ m
or_false_le b m n h = ground arith

module _ (buf : Buffer) (one_byte : Bool) (ext_offset capacity : ℕ)
    (fits : ext_offset + capacity ≤ buf.size) where
  read_entry-Yields :
      (pos b : ℕ)
      → pos + header_length one_byte < capacity
      → Yields
          (λ e. e.offset ≡ ext_offset + header_length one_byte)
          (read_entry buf one_byte ext_offset pos b)
  unfolding read_entry load
  read_entry-Yields pos b h =
      elim one_byte
          as (λ o.
            pos + header_length o < capacity
            → Yields (λ e. e.offset ≡ ext_offset + header_length o)
                (read_entry buf o ext_offset pos b)) [
                  | true ↦ λ h. refl
                  | false ↦ λ h. rw (lt→ltb (ext_offset + pos + 1) buf.size (omega arith)) refl
                ]
        h

  -- The loop ends with its fuel, reads below `ext_offset + capacity` only, and adds entries whose
  -- data begins right behind the first entry's header.
  entries_loop-Yields :
      (P : RtpExtension → Type 0)
      → ((e : RtpExtension)
          → e.offset ≡ ext_offset + header_length one_byte
          → header_length one_byte < capacity
          → P e)
      → (fuel pos : ℕ) (exts : List (ℕ × RtpExtension)) → pos ≤ capacity
      → capacity + 1 ≤ pos + fuel
      → Each P exts
      → Yields (Each P) (entries_loop buf one_byte ext_offset capacity fuel pos exts)
  unfolding entries_loop load
  entries_loop-Yields P new zero pos exts h k old = absurd (omega arith)
  entries_loop-Yields P new (suc fuel) pos exts h k old =
      elim (Bool-cases (ltb (pos + header_length one_byte) capacity)) [
        | inr over ↦ rw over old
        | inl more ↦
            let below = ltb→lt _ _ more in
            rw (more, lt→ltb (ext_offset + pos) buf.size (omega arith))
              (elim (Bool-cases (buf.bytes (ext_offset + pos) == 0)) [
                | inl pad ↦
                    rw pad (
                      entries_loop-Yields P new fuel (pos + 1) exts (omega arith) (omega arith) old)
                | inr entry ↦ rw entry (
                    Yields-bind (λ e. e.offset ≡ ext_offset + header_length one_byte) (Each P) _ _
                      (read_entry-Yields pos _ below)
                      λ e at_first.
                        let next = pos + header_length one_byte + e.length in
                        let here =
                          insert-All (λ kv. P kv.1) e.id e exts (new e at_first (omega arith))
                            old in
                        elim (Bool-cases (ends_entries one_byte e || ltb capacity next)) [
                          | inl stop ↦ rw stop here
                          | inr more_left ↦ rw more_left (
                              entries_loop-Yields P new fuel next (insert e.id e exts)
                                (or_false_le (ends_entries one_byte e) capacity next more_left)
                                (omega (arith, header_length_pos one_byte)) here)
                        ])
              ])
      ]

-- An extension whose first two data bytes lie in the packet.
abbrev pub HasNumber : ℕ → RtpExtension → Type 0
HasNumber size e = e.offset + 2 ≤ size

number_fits :
    (o : Bool) (ext_offset words size : ℕ) (e : RtpExtension)
    → ext_offset + words * 4 ≤ size
    → e.offset ≡ ext_offset + header_length o
    → header_length o < words * 4
    → HasNumber size e
number_fits o ext_offset words size e h at_first more = ground arith

pub read_entries-Yields :
    (buf : Buffer) (profile ext_offset words size : ℕ) (exts : List (ℕ × RtpExtension))
    → size ≤ buf.size
    → ext_offset + words * 4 ≤ size
    → Each (HasNumber size) exts
    → Yields (Each (HasNumber size)) (read_entries buf profile ext_offset (words * 4) exts)
unfolding read_entries
read_entries-Yields buf profile ext_offset words size exts inside fits old =
    elim (Bool-cases (not (profile == one_byte_profile) && not (profile == two_byte_profile))) [
      | inl other ↦ rw other old
      | inr known ↦ rw known (
          entries_loop-Yields buf (profile == one_byte_profile) ext_offset (words * 4) (omega arith)
            (HasNumber size)
            (λ e. number_fits (profile == one_byte_profile) ext_offset words size e fits)
            (words * 4 + 1) 0 exts (omega arith) (omega arith) old)
    ]

-- The data pointer that is stored ignores `extensions_size_`: on a packet with several extensions
-- every entry's data begins where the first one's does.
read_entries_share_offset :
    (buf : Buffer) (profile ext_offset words : ℕ)
    → ext_offset + words * 4 ≤ buf.size
    → {exts : List (ℕ × RtpExtension)}
    → read_entries buf profile ext_offset (words * 4) [] ≡ done exts
    → (i j : ℕ) {e f : RtpExtension} → lookup i exts ≡ some e
    → lookup j exts ≡ some f
    → e.offset ≡ f.offset
unfolding read_entries
read_entries_share_offset buf profile ext_offset words fits {exts} r i j {e} {f} p q =
    let all = rw r at shared in
    lookup-All (λ e. e.offset ≡ first) i e exts all p
    ∙ sym (lookup-All (λ e. e.offset ≡ first) j f exts all q)
  where
    one_byte : Bool
    one_byte = profile == one_byte_profile

    first : ℕ
    first = ext_offset + header_length one_byte

    shared :
        Yields (Each (λ e. e.offset ≡ first)) (read_entries buf profile ext_offset (words * 4) [])
    shared =
        elim (Bool-cases (not (profile == one_byte_profile) && not (profile == two_byte_profile))) [
          | inl other ↦ rw other tt
          | inr known ↦ rw known (
              entries_loop-Yields buf one_byte ext_offset (words * 4) fits (λ e. e.offset ≡ first)
                (λ e at_first _. at_first) (words * 4 + 1) 0 [] (omega arith) (omega arith) tt)
        ]
