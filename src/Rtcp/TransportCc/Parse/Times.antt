-- ===== src/Rtcp/TransportCc/Parse/Times.antt =====
-- The times of packets through `Serialize` and `Parse`: what the first loop of the writer makes of them,
-- and what the parser's last loop gives back.
use spadia.Common.{
  ℕ, suc, ◌+◌, ◌-◌, ◌*◌, ◌^◌, ◌==◌, ◌≤◌, ◌<◌, ◌≡◌, refl, sym, ◌∙◌, ap, ap₂, subst, ◌⊎◌, inl, inr,
  Bool-cases, true, List, [], ◌∷◌, ◌++◌, All, length, some, none, ne→==, if◌then◌else◌, u32, done,
  arith,
}
use mathlib.Core.List.{append-nil, append_assoc}
use spadia.Common.Dict.{insert}
use spadia.Memory.{ByteIo}
use spadia.Rtcp.TransportCc.{Scan, scan_received, scan, not_received}
use spadia.Rtcp.TransportCc.Parse.{add_delta}
use spadia.Rtcp.TransportCc.Parse.Replay.{replay}
use spadia.Rtcp.TransportCc.Parse.Deltas.{
  Entry, status_of, statuses_of, deltas_of, bytes_for_all, IsShort,
}
use spadia.Rtcp.TransportCc.Parse.Quantized.{
  epochs, quantized, IsClose, IsSteady, delta_of-quantized, next_time-add_delta, quantized-IsShort,
  add_delta-IsClose,
}

-- What the first loop makes of packets, from a running time on.
abbrev pub entries : ℕ → ℕ → List (ℕ × ℕ) → List Entry
entries k time [] = []
entries k time ((num, second) ∷ ps) =
    let missed = entries k time ps in
    let taken = entries k (add_delta time (quantized k time (second - epochs k))) ps in
    if second == 0 then none ∷ missed else some (quantized k time (second - epochs k)) ∷ taken

pub length-entries : (k time : ℕ) (ps : List (ℕ × ℕ)) → length (entries k time ps) ≡ length ps
length-entries k time [] = refl
length-entries k time ((num, second) ∷ ps) = elim (Bool-cases (second == 0)) [
  | inl zero_time ↦ rw zero_time (ap suc (length-entries k time ps))
  | inr some_time ↦
      rw some_time
        (ap suc (length-entries k (add_delta time (quantized k time (second - epochs k))) ps))
]

pub bytes_for_all-le : (es : List Entry) → bytes_for_all (deltas_of es) ≤ 2 * length es
bytes_for_all-le [] = omega arith
bytes_for_all-le (none ∷ es) = omega (arith, bytes_for_all-le es)
bytes_for_all-le (some d ∷ es) = ground (arith, bytes_for_all-le es)

pub entries-IsShort :
    (k last time : ℕ) (ps : List (ℕ × ℕ))
    → IsClose time last
    → last < 2 ^ 62
    → IsSteady k last ps
    → All IsShort (deltas_of (entries k time ps))
entries-IsShort k last time [] (up, down) fits steady = tt
entries-IsShort k last time ((num, second) ∷ ps) (up, down) fits (inl (missed, steady)) =
    rw missed (entries-IsShort k last time ps (up, down) fits steady)
entries-IsShort k last time ((num, second) ∷ ps) (up, down) fits
      (inr (some_time, small, above, below, steady)) =
    let at = second - epochs k in
    let now = add_delta time (quantized k time at) in
    let first : entries k time ((num, second) ∷ ps)
        ≡ some (quantized k time at) ∷ entries k now ps =
      rw (ne→== second 0 (omega (arith, some_time))) refl in
    subst (λ es. All IsShort (deltas_of es)) (sym first)
      (
        quantized-IsShort k time at (omega (arith, down, above)) (omega (arith, up, below)),
        entries-IsShort k at now ps
            (add_delta-IsClose k time at (omega (arith, some_time)) (omega (arith, up, fits))
              (omega (arith, small)))
            (omega (arith, small)) steady,
      )

module _ (io : ByteIo) (count base k : ℕ) where
  -- The variables after a packet that was received.
  abbrev after : Scan → ℕ → Scan
  after s at = record s {
    time = add_delta s.time (quantized k s.time at);
    deltas = s.deltas ++ quantized k s.time at ∷ [];
    statuses = s.statuses ++ status_of (some (quantized k s.time at)) ∷ [];
  }

  scan_received-quantized :
      (s : Scan) (second at : ℕ)
      → s.first_received ≡ true
      → second ≡ at + epochs k
      → at < s.time + 8000250
      → s.time < at + 8000250
      → scan_received io count base s second ≡ done (after s at)
  unfolding scan_received
  scan_received-quantized s second at first same up down = rw (
    first,
    same,
    delta_of-quantized k s.time at up down,
    next_time-add_delta s.time (quantized k s.time at) (quantized-IsShort k s.time at up down),
  )

  pub scan-entries :
      (last : ℕ) (ps : List (ℕ × ℕ)) (s : Scan)
      → s.first_received ≡ true
      → IsClose s.time last
      → last < 2 ^ 62
      → IsSteady k last ps
      → (time : ℕ) × (scan io count base ps s
          ≡ done (record s {
            time = time;
            deltas = s.deltas ++ deltas_of (entries k s.time ps);
            statuses = s.statuses ++ statuses_of (entries k s.time ps);
          }))
  unfolding scan
  scan-entries last [] s first (up, down) fits steady = (
    s.time,
    ap₂ (λ ds ss. done (record s { deltas = ds; statuses = ss })) (sym (append-nil s.deltas))
        (sym (append-nil s.statuses)),
  )
  scan-entries last ((num, second) ∷ ps) s first (up, down) fits (inl (missed, steady)) =
      let (t, e) =
        scan-entries last ps (record s { statuses = s.statuses ++ not_received ∷ [] }) first
          (up, down) fits steady in
      (
        t,
        rw missed (
            e
            ∙ ap
                (λ ss. done (record s {
                  time = t;
                  deltas = s.deltas ++ deltas_of (entries k s.time ps);
                  statuses = ss;
                }))
                (append_assoc s.statuses (not_received ∷ []) _)),
      )
  scan-entries last ((num, second) ∷ ps) s first (up, down) fits
        (inr (some_time, small, above, below, steady)) =
      let at = second - epochs k in
      let q = quantized k s.time at in
      let es = entries k (add_delta s.time q) ps in
      let (t, e) =
        scan-entries at ps (after s at) first
          (add_delta-IsClose k s.time at (omega (arith, some_time)) (omega (arith, up, fits))
            (omega (arith, small)))
          (omega (arith, small)) steady in
      let received =
        scan_received-quantized s second at first (omega (arith, some_time))
          (omega (arith, down, above)) (omega (arith, up, below)) in
      (
        t,
        rw (ne→== second 0 (omega (arith, some_time)), received)
            (e
              ∙ ap₂ (λ ds ss. done (record s { time = t; deltas = ds; statuses = ss }))
                  (append_assoc s.deltas (q ∷ []) (deltas_of es))
                  (append_assoc s.statuses (status_of (some q) ∷ []) (statuses_of es))),
      )

-- The packets as they are read back from number `n` on: not received, or less than 250 us off.
abbrev pub IsNear : ℕ → ℕ → List (ℕ × ℕ) → List (ℕ × ℕ) → Type 0
IsNear k n [] [] = Unit
IsNear k n [] (q ∷ qs) = ⊥
IsNear k n (p ∷ ps) [] = ⊥
IsNear k n ((num, second) ∷ ps) ((m, time) ∷ qs) =
    (m ≡ n)
    × (((second ≡ 0) × (time ≡ 0)) ⊎ ((0 < second) × IsClose (time + epochs k) second))
    × IsNear k (n + 1) ps qs

pub insert-last :
    (n v : ℕ) (m : List (ℕ × ℕ)) → All (λ (e : ℕ × ℕ). e.0 < n) m → insert n v m ≡ m ++ (n, v) ∷ []
unfolding insert
insert-last n v [] below = refl
insert-last n v ((j, w) ∷ m) (less, below) = ground (arith, insert-last n v m below)

pub All-last :
    (n v : ℕ) (m : List (ℕ × ℕ))
    → All (λ (e : ℕ × ℕ). e.0 < n) m
    → All (λ (e : ℕ × ℕ). e.0 < n + 1) (m ++ (n, v) ∷ [])
All-last n v [] below = (omega arith, tt)
All-last n v ((j, w) ∷ m) (less, below) = (omega (arith, less), All-last n v m below)

pub replay-IsNear :
    (k n last time : ℕ) (m ps : List (ℕ × ℕ))
    → n + length ps < 2 ^ 32
    → IsClose time last
    → last < 2 ^ 62
    → IsSteady k last ps
    → All (λ (e : ℕ × ℕ). e.0 < n) m
    → (qs : List (ℕ × ℕ)) × (replay n time m (entries k time ps) ≡ m ++ qs) × IsNear k n ps qs
replay-IsNear k n last time m [] room (up, down) fits steady below = ([], sym (append-nil m), tt)
replay-IsNear k n last time m ((num, second) ∷ ps) room (up, down) fits (inl (missed, steady))
      below =
    let (qs, e, near) =
      replay-IsNear k (n + 1) last time (m ++ (n, 0) ∷ []) ps (omega (arith, room)) (up, down) fits
        steady (All-last n 0 m below) in
    let next : u32 (n + 1) ≡ n + 1 = omega (arith, room) in
    (
      (n, 0) ∷ qs,
      rw (missed, next, insert-last n 0 m below) (e ∙ append_assoc m ((n, 0) ∷ []) qs),
      (refl, inl (missed, refl), near),
    )
replay-IsNear k n last time m ((num, second) ∷ ps) room (up, down) fits
      (inr (some_time, small, above, low, steady)) below =
    let at = second - epochs k in
    let now = add_delta time (quantized k time at) in
    let first : entries k time ((num, second) ∷ ps)
        ≡ some (quantized k time at) ∷ entries k now ps =
      rw (ne→== second 0 (omega (arith, some_time))) refl in
    let close : IsClose now at =
      add_delta-IsClose k time at (omega (arith, some_time)) (omega (arith, up, fits))
        (omega (arith, small)) in
    let (qs, e, near) =
      replay-IsNear k (n + 1) at now (m ++ (n, now) ∷ []) ps (omega (arith, room)) close
        (omega (arith, small)) steady (All-last n now m below) in
    let next : u32 (n + 1) ≡ n + 1 = omega (arith, room) in
    (
      (n, now) ∷ qs,
      ap (replay n time m) first
          ∙ ap₂ (λ i ms. replay i now ms (entries k now ps)) next (insert-last n now m below)
          ∙ e
          ∙ append_assoc m ((n, now) ∷ []) qs,
      (
        refl,
        inr (
          omega (arith, some_time),
          (omega (arith, close, some_time), omega (arith, close, some_time)),
        ),
        near,
      ),
    )
