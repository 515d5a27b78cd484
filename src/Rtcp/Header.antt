-- ===== src/Rtcp/Header.antt =====
-- `RTCPCommonHeader`. `base` is where the pointer `data` stands in its block.
pub mod RoundTrip
use spadia.Common.{
  ℕ, ◌+◌, ◌-◌, ◌^◌, Bool, false, not, ltb, ◌==◌, if◌then◌else◌, u16, ◌<<<◌, ◌>>>◌, bit_and, bit_or,
  Run, done, ◌>>=◌,
}
use spadia.Memory.{Buffer, ByteIo, load, store, read16, write16}

-- `RTCPCommonHeaderSize`
abbrev pub header_size : ℕ
header_size = 4

pub record CommonHeader : Type 0 where
  pub count : ℕ
  pub padding : Bool
  pub version : ℕ
  pub packet_type : ℕ
  pub length : ℕ

-- The members' initializers.
abbrev pub new_header : CommonHeader
new_header = record { count = 0; padding = false; version = 2; packet_type = 0; length = 0 }

module _ (io : ByteIo) where
  unfoldable pub parse : Buffer → ℕ → ℕ → CommonHeader → Run (ℕ × CommonHeader)
  parse data_block base size h = if ltb size header_size then done (0, h) else (do
    b0 ← load data_block base
    b1 ← load data_block (base + 1)
    words ← read16 io data_block (base + 2)
    done (
      header_size,
      record h {
        version = b0 >>> 6;
        padding = not (bit_and (b0 >>> 4) 0x01 == 0);
        count = bit_and b0 0x1F;
        packet_type = b1;
        length = u16 ((words + 1) <<< 2);
      },
    ))

  -- `(length >> 2) - 1` is an `int`, cut to 16 bits by the call.
  unfoldable pub serialize : CommonHeader → Buffer → ℕ → ℕ → Run (ℕ × Buffer)
  serialize h b base size = if ltb size header_size then done (0, b) else (do
    b1 ← store b base (bit_or (if h.padding then 0xA0 else 0x80) (bit_and h.count 0x1F))
    b2 ← store b1 (base + 1) h.packet_type
    b3 ← write16 io b2 (base + 2) (u16 ((h.length >>> 2) + 2 ^ 16 - 1))
    done (header_size, b3))
