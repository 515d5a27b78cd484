-- ===== src/Rtcp/TransportCc/Parse/Whole.antt =====
-- The loops of `Serialize` and of `Parse` after each other, on one block: statuses and deltas.
use spadia.Common.{
  ℕ, zero, suc, ◌+◌, ◌*◌, ◌/◌, ◌^◌, ◌≤◌, ◌<◌, ◌≡◌, refl, sym, ◌∙◌, ap, ap₂, subst, inl, inr,
  Bool-cases, true, List, [], ◌∷◌, ◌++◌, All, length, Option, none, some, ltb, ltb-false→le,
  replicate, Run, done, fault, stuck, arith,
}
use spadia.Memory.{Buffer, ByteIo, IsBigEndian}
use spadia.Memory.Access.{read16-inside}
use spadia.Rtcp.TransportCc.{Scan, scan, write_chunks, write_deltas}
use spadia.Rtcp.TransportCc.Parse.{Reading, chunk_statuses, read_chunks, read_deltas}
use spadia.Rtcp.TransportCc.Parse.Chunks.{IsStatus}
use spadia.Rtcp.TransportCc.Parse.RoundTrip.{rounds, write_chunks-Written}
use spadia.Rtcp.TransportCc.Parse.Replay.{replay, read_deltas-replay}
use spadia.Rtcp.TransportCc.Parse.Deltas.{
  Entry, statuses_of, deltas_of, bytes_for_all, HoldsAll, HoldsAll-same, write_deltas-HoldsAll,
}
use spadia.Rtcp.TransportCc.Parse.Quantized.{IsSteady}
use spadia.Rtcp.TransportCc.Parse.Times.{
  IsNear, entries, length-entries, bytes_for_all-le, entries-IsShort, scan-entries, replay-IsNear,
}

abbrev stop_of : Run (Option (List ℕ × ℕ)) → ℕ
stop_of (done (some (statuses, len))) = len
stop_of (done none) = 0
stop_of (fault e) = 0
stop_of stuck = 0

abbrev Found : Run (Option (List ℕ × ℕ)) → Type 0
Found (done (some x)) = Unit
Found (done none) = ⊥
Found (fault e) = ⊥
Found stuck = ⊥

-- The loop over the chunks reads in front of where it stops, and no more.
module _ (io : ByteIo) (b b' : Buffer) (base size : ℕ) (inside : base + size ≤ b.size)
    (same_size : b'.size ≡ b.size) where
  read_chunks-same :
      (fuel count len stop : ℕ) (before found : List ℕ)
      → read_chunks io b base size fuel count before len ≡ done (some (found, stop))
      → (len ≤ stop)
        × (((j : ℕ) → j < base + stop → b'.bytes j ≡ b.bytes j)
            → read_chunks io b' base size fuel count before len ≡ done (some (found, stop)))
  unfolding read_chunks
  read_chunks-same zero count len stop before found h =
      elim (Bool-cases (ltb (length before) count)) [
        | inl more ↦ absurd (subst Found (sym (rw more at h)) tt)
        | inr enough ↦
            (omega (arith, ap stop_of (rw enough at h)), λ same. rw enough (rw enough at h))
      ]
  read_chunks-same (suc fuel) count len stop before found h =
      elim (Bool-cases (ltb (length before) count)) [
        | inl more ↦ elim (Bool-cases (ltb size (len + 2))) [
          | inl short ↦ absurd (subst Found (sym (rw (more, short) at h)) tt)
          | inr fits ↦
              let room = ltb-false→le size (len + 2) fits in
              let chunk = io.read_u16 (b.bytes (base + len)) (b.bytes (base + len + 1)) in
              let rest : read_chunks io b base size fuel count (before ++ chunk_statuses chunk)
                    (len + 2)
                  ≡ done (some (found, stop)) =
                rw (more, fits, read16-inside io b (base + len) (omega (arith, room, inside))) at
                  h in
              let (longer, again) =
                read_chunks-same fuel count (len + 2) stop (before ++ chunk_statuses chunk) found
                  rest in
              (
                omega (arith, longer),
                λ same.
                    rw
                      (
                        more,
                        fits,
                        read16-inside io b' (base + len) (omega (arith, room, inside, same_size)),
                        ap₂ io.read_u16 (same (base + len) (omega (arith, longer)))
                            (same (base + len + 1) (omega (arith, longer))),
                      )
                      (again same),
              )
        ]
        | inr enough ↦
            (omega (arith, ap stop_of (rw enough at h)), λ same. rw enough (rw enough at h))
      ]

statuses_of-IsStatus : (es : List Entry) → All IsStatus (statuses_of es)
statuses_of-IsStatus [] = tt
statuses_of-IsStatus (none ∷ es) = (omega arith, statuses_of-IsStatus es)
statuses_of-IsStatus (some d ∷ es) = (ground arith, statuses_of-IsStatus es)

length-statuses_of : (es : List Entry) → length (statuses_of es) ≡ length es
length-statuses_of [] = refl
length-statuses_of (e ∷ es) = ap suc (length-statuses_of es)

-- The parser's loops on a block, for chunks from `base + len` on.
abbrev pub ReadsBack :
    ByteIo → (k number base size : ℕ) → List (ℕ × ℕ) → (time len : ℕ) → Buffer → Type 0
ReadsBack io k number base size ps time len b =
    (found : List ℕ) × (stop : ℕ) × (qs : List (ℕ × ℕ)) × (read_chunks io b base size size
        (length ps) [] len
      ≡ done (some (found, stop)))
    × (read_deltas io b base size (length ps) found
          (record { number = number; len = stop; time = time; packets = [] })
        ≡ done qs)
    × IsNear k number ps qs

module _ (io : ByteIo) (k base size : ℕ) (ps : List (ℕ × ℕ)) (time len : ℕ) where
  abbrev es : List Entry
  es = entries k time ps

  -- The same, with what the second loop makes of any number and time that it starts from.
  abbrev pub Replays : Buffer → Type 0
  Replays b =
      (found : List ℕ) × (stop : ℕ) × (read_chunks io b base size size (length ps) [] len
        ≡ done (some (found, stop)))
      × ((number start : ℕ)
          → read_deltas io b base size (length ps) found
              (record { number = number; len = stop; time = start; packets = [] })
            ≡ done (replay number start [] es))

  module _ (fits : time < 2 ^ 62) (steady : IsSteady k time ps)
      (room : len + 2 * ((length ps + 6) / 7) + 2 * length ps ≤ size) where
    abbrev stop_at : ℕ
    stop_at = len + 2 * rounds (statuses_of es)

    sizes : (length (statuses_of es) ≡ length ps) × (stop_at + bytes_for_all (deltas_of es) ≤ size)
    sizes =
        let many : length es ≡ length ps = length-entries k time ps in
        let many_statuses : length (statuses_of es) ≡ length es = length-statuses_of es in
        let some_bytes : bytes_for_all (deltas_of es) ≤ 2 * length es = bytes_for_all-le es in
        (omega (arith, many, many_statuses), omega (arith, many, many_statuses, some_bytes, room))

    pub Replays-ReadsBack :
        (number : ℕ) (b : Buffer)
        → number + length ps < 2 ^ 32
        → Replays b
        → ReadsBack io k number base size ps time len b
    Replays-ReadsBack number b number_fits (found, stop, read, deltas) =
        let (qs, replayed, near) =
          replay-IsNear k number time time [] ps number_fits (omega arith, omega arith) fits steady
            tt in
        (found, stop, qs, read, deltas number time ∙ ap done replayed, near)

    holds-Replays :
        (zeros : ℕ) (b b' : Buffer)
        → base + size ≤ b.size
        → b'.size ≡ b.size
        → ((j : ℕ) → j < base + stop_at → b'.bytes j ≡ b.bytes j)
        → read_chunks io b base size size (length ps) [] len
          ≡ done (some (statuses_of es ++ replicate zeros 0, stop_at))
        → HoldsAll io b' (base + stop_at) (deltas_of es)
        → Replays b'
    holds-Replays zeros b b' inside same_size same read holds =
        let found = statuses_of es ++ replicate zeros 0 in
        let (_, again) =
          read_chunks-same io b b' base size inside same_size size (length ps) len stop_at [] found
            read in
        (
          found,
          stop_at,
          again same,
          λ number start.
              let begun : Reading = record {
                number = number;
                len = stop_at;
                time = start;
                packets = [];
              } in
              ap (λ n. read_deltas io b' base size n found begun) (sym (length-entries k time ps))
              ∙ read_deltas-replay io b' base size (omega (arith, inside, same_size)) es
                  (replicate zeros 0) begun (sizes.1) holds,
        )

-- The writer's loops behind the reference time, with what they leave for the parser.
pub write_loops :
    (io : ByteIo) (k count base size : ℕ) (ps : List (ℕ × ℕ)) (s : Scan)
    → IsBigEndian io
    → s.first_received ≡ true
    → s.deltas ≡ []
    → s.statuses ≡ []
    → s.time < 2 ^ 62
    → IsSteady k s.time ps
    → s.len + 2 * ((length ps + 6) / 7) + 2 * length ps ≤ size
    → base + size ≤ s.block.size
    → (s1 : Scan) × (at : ℕ) × (b1 : Buffer) × (end : ℕ) × (b2 : Buffer) × (scan io count base ps s
        ≡ done s1)
      × (write_chunks io (length s1.statuses) s1.statuses s1.block (base + s1.len) ≡ done (at, b1))
      × (write_deltas io s1.deltas b1 at ≡ done (base + end, b2))
      × (s.len ≤ end)
      × (end ≤ s.len + 2 * ((length ps + 6) / 7) + 2 * length ps)
      × (b2.size ≡ s.block.size)
      × ((j : ℕ) → j < base + s.len → b2.bytes j ≡ s.block.bytes j)
      × ((b3 : Buffer)
          → b3.size ≡ b2.size
          → ((j : ℕ) → j < base + end → b3.bytes j ≡ b2.bytes j)
          → Replays io k base size ps s.time s.len b3)
write_loops io k count base size ps s big first no_deltas no_statuses fits steady room inside =
    let es = entries k s.time ps in
    let ss = statuses_of es in
    let (t, scanned) =
      scan-entries io count base k s.time ps s first (omega arith, omega arith) fits steady in
    let s1 = record s { time = t; deltas = deltas_of es; statuses = ss } in
    let (many, enough) = sizes io k base size ps s.time s.len fits steady room in
    let (b1, zeros, chunks, (size1, front, _, _, reads)) =
      write_chunks-Written io big (length ss) ss s.block (base + s.len) (statuses_of-IsStatus es)
        (omega arith) (omega (arith, many, enough, inside)) in
    let stop = s.len + 2 * rounds ss in
    let at = base + s.len + 2 * rounds ss in
    let read : read_chunks io b1 base size size (length ps) [] s.len
        ≡ done (some (ss ++ replicate zeros 0, stop)) =
      reads base size size (length ps) s.len [] refl (omega (arith, enough)) (omega (arith, enough))
        (inl (omega (arith, many))) in
    let (b2, deltas, size2, before, holds) =
      write_deltas-HoldsAll io big (deltas_of es) b1 at
        (entries-IsShort k s.time s.time ps (omega arith, omega arith) fits steady)
        (omega (arith, enough, inside, size1)) in
    let end = stop + bytes_for_all (deltas_of es) in
    (
      s1,
      at,
      b1,
      end,
      b2,
      scanned
          ∙ ap₂
              (λ ds xs.
                done (record s { time = t; deltas = ds ++ deltas_of es; statuses = xs ++ ss }))
              no_deltas no_statuses,
      chunks,
      deltas ∙ ap (λ i. done (i, b2)) (omega arith),
      omega arith,
      omega (arith, many, length-statuses_of es, bytes_for_all-le es),
      size2 ∙ size1,
      λ j h. before j (omega (arith, h)) ∙ front j h,
      λ b3 size3 same3.
          holds-Replays io k base size ps s.time s.len fits steady room zeros b1 b3
            (omega (arith, inside, size1)) (size3 ∙ size2)
            (λ j h. same3 j (omega (arith, h)) ∙ before j (omega (arith, h))) read
            (subst (λ i. HoldsAll io b3 i (deltas_of es)) {x = at} {y = base + stop} (omega arith)
              (HoldsAll-same io b2 b3 at (deltas_of es) (λ j h. same3 j (omega (arith, h))) holds)),
    )
