-- ===== src/Rtcp/TransportCc/Parse/Bounds.antt =====
-- The parser of transport feedback ends, stays inside the block, and keeps its map in bounds.
use spadia.Common.{
  ℕ, suc, ◌≡◌, ◌∙◌, ◌-◌, ◌%◌, ap, ◌+◌, ◌*◌, ◌^◌, ◌≤◌, ◌<◌, [], All, length, Yields, Yields-map,
  arith,
}
use spadia.Memory.{Buffer, ByteIo, IsBigEndian, IsBytes}
use spadia.Rtcp.TransportCc.{TransportCc}
use spadia.Rtcp.TransportCc.Parse.{parse}
use spadia.Rtcp.TransportCc.Parse.Entries.{parse-Filled}

-- An entry of the map fits the types of its key and value.
abbrev pub IsEntry : ℕ × ℕ → Type 0
IsEntry (number, time) = (number < 2 ^ 32) × (time < 2 ^ 64)

-- The number of an entry, where the packet starts with the 16 bits `first` and the count `count`.
abbrev pub Misread : ℕ → ℕ → ℕ × ℕ → Type 0
Misread first count (number, time) =
    (i : ℕ) × (i < count) × (number ≡ (first * 2 ^ 16 + count + i) % 2 ^ 32)

module _ (io : ByteIo) (b : Buffer) (base size : ℕ) (inside : base + size ≤ b.size) where
  module _ (big : IsBigEndian io) (byte : IsBytes b) where
    read_u32-lt :
        (i : ℕ)
        → io.read_u32 (b.bytes i) (b.bytes (i + 1)) (b.bytes (i + 2)) (b.bytes (i + 3)) < 2 ^ 32
    read_u32-lt i = omega (
      arith,
      big.read_u32_lem _ _ _ _ (byte i) (byte (i + 1)) (byte (i + 2)) (byte (i + 3)),
      byte i,
      byte (i + 1),
      byte (i + 2),
      byte (i + 3),
    )

    -- On any bytes `Parse` returns and reads nothing outside its `size` bytes; where the entries of
    -- the map fit their types before, they do after, and there are no more new ones than the packet
    -- status count.
    pub feedback_parse_returns :
        (t : TransportCc)
        → All IsEntry t.packets
        → Yields
            (λ t'.
              All IsEntry t'.packets
              × (length t'.packets
                  ≤ length t.packets + io.read_u16 (b.bytes (base + 2)) (b.bytes (base + 2 + 1))))
            (parse io b base size t)
    feedback_parse_returns t entries =
        parse-Filled IsEntry (λ n number. number < 2 ^ 32) (λ n number time h g. (h, g))
          (λ n number h. omega arith) io b base size inside t entries (read_u32-lt base)

    -- `Parse` does not read the numbers that the packets have: in place of the 16 bits of the first
    -- number and those that follow it, a new field gets numbers counted from 32 bits whose low half is
    -- the packet status count.
    feedback_parse_misreads :
        (t : TransportCc)
        → t.packets ≡ []
        → let first = b.bytes base * 256 + b.bytes (base + 1) in
          let count = b.bytes (base + 2) * 256 + b.bytes (base + 3) in
          Yields (λ t'. All (Misread first count) t'.packets) (parse io b base size t)
    feedback_parse_misreads t fresh =
        let first = b.bytes base * 256 + b.bytes (base + 1) in
        let count = b.bytes (base + 2) * 256 + b.bytes (base + 3) in
        let Left : ℕ → ℕ → Type 0 =
          λ n number. (n ≤ count) × (number ≡ (first * 2 ^ 16 + count + (count - n)) % 2 ^ 32) in
        let last : b.bytes (base + 2 + 1) ≡ b.bytes (base + 3) = ap b.bytes (omega arith) in
        let count_read : io.read_u16 (b.bytes (base + 2)) (b.bytes (base + 2 + 1)) ≡ count =
          rw last (big.read_u16_lem _ _ (byte (base + 2)) (byte (base + 3))) in
        let number_read : io.read_u32 (b.bytes base) (b.bytes (base + 1)) (b.bytes (base + 2))
              (b.bytes (base + 3))
            ≡ first * 2 ^ 16 + count =
          big.read_u32_lem _ _ _ _ (byte base) (byte (base + 1)) (byte (base + 2)) (byte (base + 3))
          ∙ omega arith in
        Yields-map (λ t'. All (Misread first count) t'.packets × _) _ _
          (parse-Filled (Misread first count) Left
            (λ n number time (some_left, e) h. (count - suc n, omega (arith, some_left), e))
            (λ n number (some_left, e). (omega (arith, some_left), omega (arith, some_left, e))) io
            b base size inside t (rw fresh tt)
            (omega (arith, count_read), omega (arith, count_read, number_read, read_u32-lt base)))
          (λ t' (misread, _). misread)
