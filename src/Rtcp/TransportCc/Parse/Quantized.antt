-- ===== src/Rtcp/TransportCc/Parse/Quantized.antt =====
-- The delta of one packet: the units of 250 us between the running time of `Serialize` and its own.
use spadia.Common.{
  ℕ, zero, suc, ◌+◌, ◌-◌, ◌*◌, ◌/◌, ◌%◌, ◌^◌, ◌≤◌, ◌<◌, ◌≡◌, refl, ◌∙◌, ap, ℤ, pos, negsuc, ◌⊎◌,
  inl, inr, Bool-cases, List, [], ◌∷◌, ltb, lt→ltb, ltb-false, le→leb, ltb→lt, ltb-false→le,
  if◌then◌else◌, done, arith,
}
use spadia.Rtcp.TransportCc.{to_int, negate, delta_of, next_time}
use spadia.Rtcp.TransportCc.Parse.{add_delta}
use spadia.Rtcp.TransportCc.Parse.Deltas.{IsShort}

abbrev pub negated : ℕ → ℤ
negated zero = pos zero
negated (suc n) = negsuc n

-- Times of `k` pairs of epochs: the reference time holds 23 bits of 64 ms, and an `int` 32 bits of
-- 250 us, so that a time in us and its remainder here make the same deltas.
abbrev pub epochs : ℕ → ℕ
epochs k = k * (2 ^ 32 * 250)

-- The units of a delta down to an earlier packet.
abbrev pub units_down : ℕ → ℕ → ℕ
units_down zero n = n / 250
units_down (suc k) n = (n + 249) / 250

-- The delta of a packet in units of 250 us.
abbrev pub quantized : ℕ → ℕ → ℕ → ℤ
quantized k time at =
    if ltb at time then negated (units_down k (time - at)) else pos ((at - time) / 250)

-- Less than 250 us apart.
abbrev pub IsClose : ℕ → ℕ → Type 0
IsClose a b = (a < b + 250) × (b < a + 250)

-- Each packet is not received (its time is 0) or at most 8 s away from the one received before it.
abbrev pub IsSteady : ℕ → ℕ → List (ℕ × ℕ) → Type 0
IsSteady k last [] = Unit
IsSteady k last ((num, second) ∷ ps) =
    ((second ≡ 0) × IsSteady k last ps)
    ⊎ ((epochs k + 250 ≤ second)
        × (second < epochs k + 2 ^ 62)
        × (second ≤ last + epochs k + 8000000)
        × (last + epochs k ≤ second + 8000000)
        × IsSteady k (second - epochs k) ps)

to_int-mod : (v u : ℕ) → v % 2 ^ 32 ≡ u → u < 2 ^ 31 → to_int v ≡ pos u
unfolding to_int
to_int-mod v u same h = rw same (ground arith)

to_int-wrapped : (v m : ℕ) → v % 2 ^ 32 ≡ 2 ^ 32 - m → 0 < m → m < 2 ^ 31 → to_int v ≡ negated m
unfolding to_int
to_int-wrapped v zero same some_units h = absurd (omega arith)
to_int-wrapped v (suc m) same some_units h =
    rw (same, ltb-false (2 ^ 32 - suc m) (2 ^ 31) (omega (arith, h))) (ap negsuc (omega (arith, h)))

negate-negated : (n : ℕ) → negate (pos n) ≡ done (negated n)
unfolding negate
negate-negated zero = refl
negate-negated (suc n) = refl

negated-IsShort : (n : ℕ) → n < 2 ^ 15 → IsShort (negated n)
negated-IsShort zero h = omega arith
negated-IsShort (suc n) h = omega (arith, h)

add_delta-negated :
    (time n : ℕ) → n * 250 ≤ time → time < 2 ^ 64 → add_delta time (negated n) ≡ time - n * 250
unfolding add_delta
add_delta-negated time zero h fits = omega (arith, fits)
add_delta-negated time (suc n) h fits = omega (arith, h, fits)

units_down-lt : (k n : ℕ) → n < 8000250 → units_down k n < 2 ^ 15
units_down-lt zero n h = omega (arith, h)
units_down-lt (suc k) n h = omega (arith, h)

units_down-IsClose : (k n : ℕ) → (units_down k n * 250 < n + 250) × (n < units_down k n * 250 + 250)
units_down-IsClose zero n = (omega arith, omega arith)
units_down-IsClose (suc k) n = (omega arith, omega arith)

-- An earlier packet in the first epochs, and in later ones, where the difference stays positive.
delta_of-earlier :
    (k time at : ℕ)
    → at < time
    → time < at + 8000250
    → delta_of time (at + epochs k) ≡ done (negated (units_down k (time - at)))
unfolding delta_of
delta_of-earlier zero time at less near =
    rw (ltb-false time (at + epochs 0) (omega (arith, less))) (
      ap negate (
        to_int-mod ((time - (at + epochs 0)) / 250) ((time - at) / 250) (omega (arith, less, near))
          (omega (arith, near)))
      ∙ negate-negated ((time - at) / 250))
delta_of-earlier (suc k) time at less near =
    let whole : (at + epochs (suc k) - time) / 250
        ≡ k * 2 ^ 32 + (2 ^ 32 - (time - at + 249) / 250) =
      omega (arith, less, near) in
    rw (lt→ltb time (at + epochs (suc k)) (omega (arith, near))) (
      ap done (
        to_int-wrapped _ ((time - at + 249) / 250) (omega (arith, whole, less, near))
          (omega (arith, less)) (omega (arith, near))))

delta_of-later :
    (k time at : ℕ)
    → time ≤ at
    → at < time + 8000250
    → delta_of time (at + epochs k) ≡ done (pos ((at - time) / 250))
unfolding delta_of
delta_of-later k time at less near =
    let whole : (at + epochs k - time) / 250 ≡ k * 2 ^ 32 + (at - time) / 250 =
      omega (arith, less) in
    elim (Bool-cases (ltb time (at + epochs k))) [
      | inl later ↦ rw later (
          ap done
            (to_int-mod _ ((at - time) / 250) (omega (arith, whole, near)) (omega (arith, near))))
      | inr never ↦
          let same = ltb-false→le time (at + epochs k) never in
          rw never (
            ap negate
              (to_int-mod ((time - (at + epochs k)) / 250) 0 (omega (arith, same)) (omega arith))
            ∙ negate-negated 0
            ∙ ap (λ u. done (pos u)) (omega (arith, less, same)))
    ]

pub delta_of-quantized :
    (k time at : ℕ)
    → at < time + 8000250
    → time < at + 8000250
    → delta_of time (at + epochs k) ≡ done (quantized k time at)
delta_of-quantized k time at up down = elim (Bool-cases (ltb at time)) [
  | inl earlier ↦ rw earlier (delta_of-earlier k time at (ltb→lt at time earlier) down)
  | inr later ↦ rw later (delta_of-later k time at (ltb-false→le at time later) up)
]

pub next_time-add_delta :
    (time : ℕ) (d : ℤ) → IsShort d → next_time time d ≡ done (add_delta time d)
unfolding next_time add_delta
next_time-add_delta time (pos d) short = rw (lt→ltb (d * 250) (2 ^ 31) (omega (arith, short))) refl
next_time-add_delta time (negsuc d) short =
    rw (le→leb ((d + 1) * 250) (2 ^ 31) (omega (arith, short))) refl

pub quantized-IsShort :
    (k time at : ℕ) → at < time + 8000250 → time < at + 8000250 → IsShort (quantized k time at)
quantized-IsShort k time at up down = elim (Bool-cases (ltb at time)) [
  | inl earlier ↦ rw earlier (negated-IsShort _ (units_down-lt k (time - at) (omega (arith, down))))
  | inr later ↦ rw later (omega (arith, up))
]

-- The running time stays less than a unit from the packet's.
pub add_delta-IsClose :
    (k time at : ℕ)
    → 250 ≤ at
    → time < 2 ^ 63
    → at < 2 ^ 63
    → IsClose (add_delta time (quantized k time at)) at
unfolding add_delta
add_delta-IsClose k time at room h fits = elim (Bool-cases (ltb at time)) [
  | inl earlier ↦
      let less = ltb→lt at time earlier in
      let (high, low) = units_down-IsClose k (time - at) in
      let same =
        add_delta-negated time (units_down k (time - at)) (omega (arith, room, high, less))
          (omega (arith, h)) in
      rw (earlier, same) (omega (arith, less, room, high, low), omega (arith, less, high, low))
  | inr later ↦
      let less = ltb-false→le at time later in
      rw later (omega (arith, less, fits), omega (arith, less, fits))
]
