-- ===== src/Rtcp/ReceiverReport/Blocks.antt =====
-- How many report blocks a receiver report carries.
use spadia.Common.{
  ℕ, zero, suc, ◌^◌, ◌≤◌, ◌<◌, ◌≡◌, refl, List, [], ◌∷◌, ◌++◌, length, done, arith, ◌∙◌, bit_and,
  bit_or, u8,
}
use spadia.Common.Bits.{bit_and_mask, bit_or_fields}
use spadia.Memory.{
  Buffer, ByteIo, IsBigEndian, malloc, load, store, read16, read32, write16, write32,
}
use spadia.Memory.Access.{stored32, copied, copy-inside}
use spadia.Memory.Endian.{read_u16-write_u16, read_u32-write_u32}
use spadia.Rtcp.Header
use spadia.Rtcp.Header.{header_size}
use spadia.Rtcp.Header.RoundTrip.{with_header}
use spadia.Rtcp.ReportBlock
use spadia.Rtcp.ReportBlock.{new_block}
use spadia.Rtcp.ReceiverReport.{
  ReceiverReport, packet_size, report_header, serialize_blocks, serialize, parse_blocks, parse,
}

-- With the packet full, a further block is not written.
serialize_blocks-full :
    (n : ℕ) (blocks : List Buffer) (b : Buffer)
    → serialize_blocks n blocks b packet_size ≡ done (packet_size, b)
unfolding serialize_blocks ReportBlock.serialize
serialize_blocks-full zero blocks b = refl
serialize_blocks-full (suc n) [] b = refl
serialize_blocks-full (suc n) (block ∷ blocks) b = serialize_blocks-full n blocks b

-- The first block fills it.
serialize_blocks-first :
    (m n : ℕ) (block : Buffer) (blocks : List Buffer) (b : Buffer)
    → m ≡ suc n
    → 24 ≤ block.size
    → b.size ≡ packet_size
    → serialize_blocks m (block ∷ blocks) b 8 ≡ done (packet_size, copied b 8 block 0 24)
unfolding serialize_blocks ReportBlock.serialize
serialize_blocks-first m n block blocks b e h full =
    rw (e, copy-inside b 8 block 0 24 (omega arith) h)
      (serialize_blocks-full n blocks (copied b 8 block 0 24))

parse_blocks-full :
    (n : ℕ) (b : Buffer) (reports : List Buffer)
    → parse_blocks n b 0 packet_size packet_size reports ≡ done reports
unfolding parse_blocks
parse_blocks-full zero b reports = refl
parse_blocks-full (suc n) b reports = refl

parse_blocks-first :
    (m n : ℕ) (b : Buffer) (reports : List Buffer)
    → m ≡ suc n
    → b.size ≡ packet_size
    → parse_blocks m b 0 8 packet_size reports ≡ done (reports ++ copied new_block 0 b 8 24 ∷ [])
unfolding parse_blocks ReportBlock.parse
parse_blocks-first m n b reports e full =
    rw (e, copy-inside new_block 0 b 8 24 (omega arith) (omega arith))
      (parse_blocks-full n b (reports ++ copied new_block 0 b 8 24 ∷ []))

count_back : (n : ℕ) → n < 32 → bit_and (bit_or 0x80 (bit_and n 0x1F)) 0x1F ≡ n
count_back n h =
    ground (
      arith,
      bit_and_mask 5 n,
      bit_or_fields 5 4 n h,
      bit_and_mask 5 (bit_or 0x80 (bit_and n 0x1F)),
    )

module _ (io : ByteIo) (junk : ℕ → ℕ) (ssrc : ℕ) (block : Buffer) (rest : List Buffer) where
  abbrev report : ReceiverReport
  report = record { ssrc = ssrc; reports = block ∷ rest }

  abbrev headed : Buffer
  headed =
      let raw : Buffer = record { size = packet_size; bytes = junk } in
      stored32 io (with_header io (report_header report) raw 0) 4 ssrc

  abbrev out : Buffer
  out = copied headed 8 block 0 24

  serialize-out :
      block.size ≡ 24 → length rest < 31 → serialize io junk report ≡ done (packet_size, out)
  unfolding serialize Header.serialize write16 write32 store malloc
  serialize-out full few =
      serialize_blocks-first (u8 (suc (length rest))) (length rest) block rest headed (omega arith)
        (omega arith) refl

  parse-out :
      (fresh : ReceiverReport)
      → IsBigEndian io
      → ssrc < 2 ^ 32
      → length rest < 31
      → parse io fresh out 0 packet_size
        ≡ done (record { ssrc = ssrc; reports = fresh.reports ++ copied new_block 0 out 8 24 ∷ [] })
  unfolding parse Header.parse read16 read32 load
  parse-out fresh big fits few = rw (
    read_u16-write_u16 io big 7 (omega arith),
    read_u32-write_u32 io big ssrc fits,
    parse_blocks-first _ (length rest) out fresh.reports
        (count_back (u8 (suc (length rest))) (omega arith) ∙ omega arith) refl,
  )

-- Of any number of report blocks, up to 31, `Serialize` writes the first alone, although the
-- header counts all; `Parse` reads back the SSRC and that one block, byte for byte.
only_first_block :
    (io : ByteIo) (junk : ℕ → ℕ) (ssrc : ℕ) (block : Buffer) (rest : List Buffer)
    (fresh : ReceiverReport) (i : ℕ)
    → IsBigEndian io
    → ssrc < 2 ^ 32
    → block.size ≡ 24
    → length rest < 31
    → i < 24
    → (b : Buffer) × (again : Buffer) × (serialize io junk
          (record { ssrc = ssrc; reports = block ∷ rest })
        ≡ done (packet_size, b))
      × (parse io fresh b 0 packet_size
          ≡ done (record { ssrc = ssrc; reports = fresh.reports ++ again ∷ [] }))
      × (again.bytes i ≡ block.bytes i)
only_first_block io junk ssrc block rest fresh i big fits full few below = (
  out io junk ssrc block rest,
  copied new_block 0 (out io junk ssrc block rest) 8 24,
  serialize-out io junk ssrc block rest full few,
  parse-out io junk ssrc block rest fresh big fits few,
  ground arith,
)
