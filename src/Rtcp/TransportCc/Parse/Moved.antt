-- ===== src/Rtcp/TransportCc/Parse/Moved.antt =====
-- The entries of a replay that starts from another number and another time than was meant.
use spadia.Common.{
  ℕ, ◌+◌, ◌-◌, ◌^◌, ◌==◌, ◌<◌, ◌≡◌, refl, sym, ◌∙◌, ◌⊎◌, inl, inr, Bool-cases, ℤ, pos, negsuc, List,
  [], ◌∷◌, ◌++◌, All, length, none, some, ==→eq, ==-false→ne, u32, u64, arith,
}
use mathlib.Core.List.{append-nil, append_assoc}
use spadia.Rtcp.TransportCc.Parse.{add_delta}
use spadia.Rtcp.TransportCc.Parse.Replay.{replay}
use spadia.Rtcp.TransportCc.Parse.Deltas.{Entry, deltas_of, IsShort}
use spadia.Rtcp.TransportCc.Parse.Quantized.{epochs, quantized, IsClose}
use spadia.Rtcp.TransportCc.Parse.Times.{entries, IsNear, insert-last, All-last}

-- The entries that a replay adds where no number comes twice.
abbrev pub listing : ℕ → ℕ → List Entry → List (ℕ × ℕ)
listing number time [] = []
listing number time (none ∷ es) = (number, 0) ∷ listing (number + 1) time es
listing number time (some d ∷ es) =
    (number, add_delta time d) ∷ listing (number + 1) (add_delta time d) es

pub replay-listing :
    (n time : ℕ) (m : List (ℕ × ℕ)) (es : List Entry)
    → n + length es < 2 ^ 32
    → All (λ (e : ℕ × ℕ). e.0 < n) m
    → replay n time m es ≡ m ++ listing n time es
replay-listing n time m [] room below = sym (append-nil m)
replay-listing n time m (none ∷ es) room below =
    let next : u32 (n + 1) ≡ n + 1 = omega (arith, room) in
    rw (next, insert-last n 0 m below)
      (replay-listing (n + 1) time (m ++ (n, 0) ∷ []) es (omega (arith, room))
          (All-last n 0 m below)
        ∙ append_assoc m ((n, 0) ∷ []) (listing (n + 1) time es))
replay-listing n time m (some d ∷ es) room below =
    let next : u32 (n + 1) ≡ n + 1 = omega (arith, room) in
    let now = add_delta time d in
    rw (next, insert-last n now m below)
      (replay-listing (n + 1) now (m ++ (n, now) ∷ []) es (omega (arith, room))
          (All-last n now m below)
        ∙ append_assoc m ((n, now) ∷ []) (listing (n + 1) now es))

-- Entries with the packets' order and one number after the other, each 0 for a packet that was
-- not received and else off by `moved` from a time that is less than 250 us from the packet's.
abbrev pub IsMoved : ℕ → ℕ → ℕ → List (ℕ × ℕ) → List (ℕ × ℕ) → Type 0
IsMoved k moved n [] [] = Unit
IsMoved k moved n [] (q ∷ qs) = ⊥
IsMoved k moved n (p ∷ ps) [] = ⊥
IsMoved k moved n ((num, second) ∷ ps) ((m, time) ∷ qs) =
    (m ≡ n)
    × (((second ≡ 0) × (time ≡ 0))
        ⊎ ((near : ℕ) × IsClose (near + epochs k) second × (time ≡ u64 (near + moved))))
    × IsMoved k moved (n + 1) ps qs

add_delta-moved :
    (time moved : ℕ) (d : ℤ)
    → IsShort d
    → add_delta (u64 (time + moved)) d ≡ u64 (add_delta time d + moved)
unfolding add_delta
add_delta-moved time moved (pos d) short = omega arith
add_delta-moved time moved (negsuc d) short = omega (arith, short)

pub listing-IsMoved :
    (k moved n m time : ℕ) (ps : List (ℕ × ℕ))
    → All IsShort (deltas_of (entries k time ps))
    → IsNear k n ps (listing n time (entries k time ps))
    → IsMoved k moved m ps (listing m (u64 (time + moved)) (entries k time ps))
listing-IsMoved k moved n m time [] short near = tt
listing-IsMoved k moved n m time ((num, second) ∷ ps) short near = elim (Bool-cases (second == 0)) [
  | inl missed ↦
      let (_, _, rest) = rw missed at near in
      let after = listing-IsMoved k moved (n + 1) (m + 1) time ps (rw missed at short) rest in
      rw missed (refl, inl (==→eq second 0 missed, refl), after)
  | inr taken ↦
      let d = quantized k time (second - epochs k) in
      let (_, which, rest) = rw taken at near in
      let (now_short, later_short) = rw taken at short in
      let close : IsClose (add_delta time d + epochs k) second = elim which [
        | inl (none_taken, _) ↦ absurd (==-false→ne second 0 taken none_taken)
        | inr (_, close) ↦ close
      ] in
      let after = listing-IsMoved k moved (n + 1) (m + 1) (add_delta time d) ps later_short rest in
      let start = add_delta-moved time moved d now_short in
      rw (taken, start) (refl, inr (add_delta time d, close, refl), after)
]
