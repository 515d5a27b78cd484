-- ===== src/Tools.antt =====
-- tools.h and tools.cpp: the pure helpers. The clocks and `uuid` are parameters where they are used.
pub mod Laws
use spadia.Common.{
  ℕ, ◌+◌, Bool, not, ◌&&◌, ◌||◌, List, [], ◌∷◌, leb, ◌==◌, if◌then◌else◌, u16, u32, ◌<<<◌, ◌>>>◌,
  bit_and, bit_or,
}

unfoldable pub pad32 : ℕ → ℕ
pad32 size = if not (bit_and size 0x03 == 0) then u32 (bit_and size 0xFFFFFFFC + 0x04) else size

unfoldable pub get_port : ℕ → ℕ
get_port sin_port = u16 (bit_or (bit_and sin_port 0x00FF <<< 8) (bit_and sin_port 0xFF00 >>> 8))

abbrev pub is_alphanumeric : ℕ → Bool
is_alphanumeric c = leb b'0' c && leb c b'9' || leb b'A' c && leb c b'Z' || leb b'a' c && leb c b'z'

-- The loop of `randomID` over the text that `uuid` gave.
unfoldable pub random_id : List ℕ → List ℕ
random_id [] = []
random_id (c ∷ cs) = let rv = random_id cs in if is_alphanumeric c then c ∷ rv else rv
