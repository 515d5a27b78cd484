-- ===== src/Tests/Packets.antt =====
-- Four packets in one feedback: one not received, one received before the one in front of it, and numbers
-- that leave a gap.
use spadia.Common.{ℕ, ◌+◌, ◌*◌, ◌^◌, ◌-◌, ◌%◌, ◌≤◌, ◌≡◌, inl, inr, List, [], ◌∷◌, refl, arith, done}
use spadia.Memory.{Buffer}
use spadia.Rtcp.TransportCc.{serialize}
use spadia.Rtcp.TransportCc.Parse.Quantized.{epochs, IsSteady}
use spadia.Rtcp.TransportCc.Parse.Whole.{ReadsBack}
use spadia.Rtcp.TransportCc.Parse.Field.{feedback, reference, serialize_read_back}
use spadia.Rtcp.TransportCc.Parse.{parse}
use spadia.Rtcp.TransportCc.Parse.Moved.{IsMoved}
use spadia.Rtcp.TransportCc.Parse.Serialized.{parse-serialize-IsMoved}
use spadia.Tests.{big_endian, big_endian-IsBigEndian}

abbrev sixty_four : Buffer
sixty_four = record { size = 64; bytes = λ _. 0 }

-- Behind the first at 321 ms of the third epoch: none, 1 ms before it, and 8 s after.
abbrev later_packets : List (ℕ × ℕ)
later_packets = (8, 0) ∷ (9, epochs 1 + 320000) ∷ (11, epochs 1 + 8300000) ∷ []

later_packets-IsSteady : IsSteady 1 (epochs 1 + 321000 - epochs 1) later_packets
later_packets-IsSteady = inl (
  refl,
  inr (
    omega arith,
    omega arith,
    omega arith,
    omega arith,
    inr (omega arith, omega arith, omega arith, omega arith, tt),
  ),
)

serialize_read_back_example :
    (len : ℕ) × (b' : Buffer) × (serialize big_endian
        (feedback 5 0 ((7, epochs 1 + 321000) ∷ later_packets))
        sixty_four
        0
      ≡ done (len, b'))
    × (len % 4 ≡ 0)
    × (len ≤ 64)
    × ReadsBack big_endian 1 7 0 64
        ((7, epochs 1 + 321000) ∷ later_packets)
        (reference 1 (epochs 1 + 321000))
        8
        b'
serialize_read_back_example =
    serialize_read_back big_endian 5 0 1 7 (epochs 1 + 321000) later_packets (omega arith)
      (omega arith) later_packets-IsSteady 7 64 0 sixty_four big_endian-IsBigEndian (omega arith)
      (omega arith) (omega arith)

-- The first number 7 and the count 4 become one number, and all times move by 81.6 s.
parse-serialize-IsMoved_example :
    (len : ℕ) × (b' : Buffer) × (qs : List (ℕ × ℕ)) × (serialize big_endian
        (feedback 5 0 ((7, epochs 1 + 321000) ∷ later_packets))
        sixty_four
        0
      ≡ done (len, b'))
    × (parse big_endian b' 0 64 (feedback 0 0 []) ≡ done (feedback 0 1280 qs))
    × IsMoved 1 (2 ^ 64 + 81600000) (7 * 2 ^ 16 + 4) ((7, epochs 1 + 321000) ∷ later_packets) qs
parse-serialize-IsMoved_example =
    parse-serialize-IsMoved big_endian big_endian-IsBigEndian 5 0 1 7 (epochs 1 + 321000)
      later_packets sixty_four (omega arith) (omega arith) (omega arith) (omega arith) (omega arith)
      later_packets-IsSteady (omega arith) 64 0 (omega arith) (omega arith)
