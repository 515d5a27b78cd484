-- ===== src/Tests.antt =====
-- Test data that the tests and examples of the components share: an instance of the byte order
-- calls, and blocks that hold the bytes of a list.
mod Tools
mod Rtp
mod Session
mod Rtcp
mod Stun
mod Feedback
mod Connection
mod Server
mod Sdp
mod Media
mod Relay
mod Socket
mod Forward
mod Pool
mod Times
mod Packets
mod Lifecycle
mod Offer
use spadia.Common.{
  ℕ, zero, suc, ◌+◌, ◌*◌, ◌/◌, ◌%◌, ◌^◌, ◌<◌, ◌≡◌, refl, sym, ◌∙◌, inl, inr, Bool-cases, Bool, true,
  false, ◌&&◌, List, [], ◌∷◌, ltb, length, get_or, arith, ltb→lt,
}
use mathlib.Core.Bool.{true≢false}
use spadia.Memory.{Buffer, IsBytes, ByteIo, IsBigEndian, signed16}

abbrev pub big_endian : ByteIo
big_endian = record {
  read_u8 = λ a. a;
  read_u16 = λ a b. a * 256 + b;
  read_u32 = λ a b c d. ((a * 256 + b) * 256 + c) * 256 + d;
  read_s16 = λ a b. signed16 (a * 256 + b);
  write_u8 = λ v. v;
  write_u16 = λ v. (v / 256, v % 256);
  write_u32 = λ v. (v / 2 ^ 24, v / 2 ^ 16 % 256, v / 2 ^ 8 % 256, v % 256);
}

pub big_endian-IsBigEndian : IsBigEndian big_endian
big_endian-IsBigEndian = record {
  read_u8_lem = λ a h. refl;
  read_u16_lem = λ a b h g. refl;
  read_u32_lem = λ a b c d _ _ _ _. refl;
  read_s16_lem = λ a b h g. refl;
  write_u8_lem = λ v h. refl;
  write_u16_lem = λ v h. refl;
  write_u32_lem = λ v h. refl;
}

abbrev pub block_of : List ℕ → Buffer
block_of xs = record { size = length xs; bytes = λ i. get_or xs i 0 }

abbrev pub are_bytes : List ℕ → Bool
are_bytes [] = true
are_bytes (x ∷ xs) = ltb x 256 && are_bytes xs

pub block_of-IsBytes : (xs : List ℕ) → are_bytes xs ≡ true → IsBytes (block_of xs)
block_of-IsBytes [] h i = omega arith
block_of-IsBytes (x ∷ xs) h i = elim (Bool-cases (ltb x 256)) [
  | inr large ↦ absurd (true≢false (sym h ∙ rw large))
  | inl small ↦ byte i (ltb→lt x 256 small) (block_of-IsBytes xs (sym (rw small) ∙ h))
]
  where
    byte : (i : ℕ) → x < 256 → IsBytes (block_of xs) → get_or (x ∷ xs) i 0 < 256
    byte zero small rest = small
    byte (suc i) small rest = rest i
