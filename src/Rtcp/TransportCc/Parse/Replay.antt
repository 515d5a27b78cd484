-- ===== src/Rtcp/TransportCc/Parse/Replay.antt =====
-- The parser's last loop on deltas that stand in a block.
use spadia.Common.{
  ℕ, ◌+◌, ◌≤◌, ◌≡◌, refl, ap, subst, ℤ, pos, Bool-cases, inl, inr, List, [], ◌∷◌, ◌++◌, length,
  none, some, ltb-false, u32, done, arith,
}
use spadia.Common.Dict.{insert}
use spadia.Memory.{Buffer, ByteIo, read8, read_short}
use spadia.Memory.Access.{load-inside}
use spadia.Rtcp.TransportCc.{is_small}
use spadia.Rtcp.TransportCc.Parse.{add_delta, Reading, received, read_delta, read_deltas}
use spadia.Rtcp.TransportCc.Parse.Deltas.{
  Entry, status_of, statuses_of, deltas_of, bytes_for, bytes_for_all, Holds, HoldsAll,
}

-- What reading the entries puts into the map, from a number and a time on.
abbrev pub replay : ℕ → ℕ → List (ℕ × ℕ) → List Entry → List (ℕ × ℕ)
replay number time packets [] = packets
replay number time packets (none ∷ es) = replay (u32 (number + 1)) time (insert number 0 packets) es
replay number time packets (some d ∷ es) =
    replay (u32 (number + 1)) (add_delta time d) (insert number (add_delta time d) packets) es

module _ (io : ByteIo) where
  module _ (b : Buffer) (base size : ℕ) (inside : base + size ≤ b.size) where
    read_delta-received :
        (r : Reading) (d : ℤ)
        → r.len + bytes_for d ≤ size
        → Holds io b (base + r.len) d
        → read_delta io b base size (status_of (some d)) r
          ≡ done (some (received r (bytes_for d) d))
    unfolding read_delta read8 read_short
    read_delta-received r d room holds = elim (Bool-cases (is_small d)) [
      | inl small ↦
          let fits : r.len + 1 ≤ size = rw small at room in
          let value : pos (io.read_u8 (b.bytes (base + r.len))) ≡ d = rw small at holds in
          rw
            (
              small,
              ltb-false size (r.len + 1) fits,
              load-inside b (base + r.len) (omega (arith, fits, inside)),
            )
            (ap (λ v. done (some (received r 1 v))) value)
      | inr large ↦
          let fits : r.len + 2 ≤ size = rw large at room in
          let value : io.read_s16 (b.bytes (base + r.len)) (b.bytes (base + r.len + 1)) ≡ d =
            rw large at holds in
          rw
            (
              large,
              ltb-false size (r.len + 2) fits,
              load-inside b (base + r.len) (omega (arith, fits, inside)),
              load-inside b (base + r.len + 1) (omega (arith, fits, inside)),
            )
            (ap (λ v. done (some (received r 2 v))) value)
    ]

    -- The loop over the packets, on the statuses of entries whose deltas stand behind `r.len`, and
    -- whatever statuses come behind.
    pub read_deltas-replay :
        (es : List Entry) (rest : List ℕ) (r : Reading)
        → r.len + bytes_for_all (deltas_of es) ≤ size
        → HoldsAll io b (base + r.len) (deltas_of es)
        → read_deltas io b base size (length es) (statuses_of es ++ rest) r
          ≡ done (replay r.number r.time r.packets es)
    unfolding read_deltas read_delta received
    read_deltas-replay [] rest r room holds = refl
    read_deltas-replay (none ∷ es) rest r room holds =
        read_deltas-replay es rest
          (record r { number = u32 (r.number + 1); packets = insert r.number 0 r.packets }) room
          holds
    read_deltas-replay (some d ∷ es) rest r room (here, holds) =
        let next = received r (bytes_for d) d in
        let there : HoldsAll io b (base + next.len) (deltas_of es) =
          subst (λ i. HoldsAll io b i (deltas_of es)) {x = base + r.len + bytes_for d}
            {y = base + next.len} (omega arith) holds in
        rw (read_delta-received r d (omega (arith, room)) here)
          (read_deltas-replay es rest next (omega (arith, room)) there)
