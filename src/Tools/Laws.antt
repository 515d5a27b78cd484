-- ===== src/Tools/Laws.antt =====
-- What the helpers compute.
use spadia.Common.{
  ℕ, ◌+◌, ◌*◌, ◌/◌, ◌%◌, ◌^◌, ◌<◌, ◌≡◌, true, List, [], ◌∷◌, All, arith, inl, inr, Bool-cases,
}
use spadia.Common.Bits.{bit_and_mask, bit_and_shifted, bit_or_fields}
use spadia.Tools.{pad32, get_port, is_alphanumeric, random_id}

-- `pad32` rounds up to the next multiple of four.
pad32_lem : (size : ℕ) → size + 3 < 2 ^ 32 → pad32 size ≡ (size + 3) / 4 * 4
unfolding pad32
pad32_lem size h =
    ground
      (arith, bit_and_mask 2 size, bit_and_shifted 2 size 0x3FFFFFFF, bit_and_mask 30 (size / 4))

get_port_lem : (p : ℕ) → p < 2 ^ 16 → get_port p ≡ p % 256 * 256 + p / 256
unfolding get_port
get_port_lem p h = ground (
  arith,
  bit_and_mask 8 p,
  bit_and_shifted 8 p 0xFF,
  bit_and_mask 8 (p / 256),
  bit_or_fields 8 (p % 256) (p / 256),
)

-- `get_port` swaps the two bytes of a port number, so twice it is the identity.
get_port-get_port :
    (p : ℕ) → p < 2 ^ 16 → (get_port p ≡ p % 256 * 256 + p / 256) × (get_port (get_port p) ≡ p)
get_port-get_port p h = (
  get_port_lem p h,
  omega (arith, get_port_lem p h, get_port_lem (get_port p) (omega (arith, get_port_lem p h))),
)

-- `randomID` leaves letters and digits only.
random_id-All : (text : List ℕ) → All (λ c. is_alphanumeric c ≡ true) (random_id text)
unfolding random_id
random_id-All [] = tt
random_id-All (c ∷ cs) = elim (Bool-cases (is_alphanumeric c)) [
  | inl kept ↦ rw kept (kept, random_id-All cs)
  | inr dropped ↦ rw dropped (random_id-All cs)
]
