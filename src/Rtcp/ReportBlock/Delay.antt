-- ===== src/Rtcp/ReportBlock/Delay.antt =====
-- The delay since the last report in milliseconds: `SetDelaySinceLastSRMS` and
-- `GetDelaySinceLastSRMS`. What they compute in `double` is a parameter.
use spadia.Common.{
  ℕ, ◌+◌, ◌*◌, ◌/◌, ◌%◌, ◌^◌, ◌≤◌, ◌<◌, ◌≡◌, ◌∙◌, refl, u32, ◌<<<◌, ◌>>>◌, bit_and, bit_or, Run,
  done, ◌>>=◌, arith,
}
use spadia.Common.Bits.{bit_and_mask, bit_or_fields}
use spadia.Memory.{Buffer, ByteIo, IsBigEndian, load, store, read32, write32}
use spadia.Memory.Endian.{read_u32-write_u32}
use spadia.Rtcp.ReportBlock.{get_delay_since_last_sr, set_delay_since_last_sr}

-- `(uint32_t)(x * 65.535)`, and `k + (double)x / 65.635` as `uint32_t`.
pub record Doubles : Type 0 where
  pub scaled : ℕ → ℕ
  pub with_rest : ℕ → ℕ → ℕ

-- The arithmetic of `double` is exact to less than one unit at these sizes, and the cast to an
-- integer truncates.
pub record IsTruncated (d : Doubles) : Type 0 where
  pub scaled_below : (x : ℕ) → x < 1000 → d.scaled x * 1000 ≤ x * 65535
  pub scaled_above : (x : ℕ) → x < 1000 → x * 65535 ≤ (d.scaled x + 1) * 1000
  pub rest_below :
      (k x : ℕ) → k < 2 ^ 26 → x < 2 ^ 16 → d.with_rest k x * 65635 ≤ k * 65635 + x * 1000
  pub rest_above :
      (k x : ℕ) → k < 2 ^ 26 → x < 2 ^ 16 → k * 65635 + x * 1000 ≤ (d.with_rest k x + 1) * 65635

module _ (io : ByteIo) (d : Doubles) where
  unfoldable pub set_delay_since_last_sr_ms : Buffer → ℕ → Run Buffer
  unfolding set_delay_since_last_sr
  set_delay_since_last_sr_ms b ms =
      set_delay_since_last_sr io b (bit_or (u32 ((ms / 1000) <<< 16)) (d.scaled (ms % 1000)))

  unfoldable pub get_delay_since_last_sr_ms : Buffer → Run ℕ
  unfolding get_delay_since_last_sr
  get_delay_since_last_sr_ms b = do
    dslr ← get_delay_since_last_sr io b
    done (d.with_rest (u32 ((dslr >>> 16) * 1000)) (bit_and dslr 0xFFFF))

  module _ (big : IsBigEndian io) (truncated : IsTruncated d) where
    packed :
        (ms : ℕ)
        → ms < 65536000
        → bit_or (u32 ((ms / 1000) <<< 16)) (d.scaled (ms % 1000))
          ≡ ms / 1000 * 2 ^ 16 + d.scaled (ms % 1000)
    packed ms fits =
        let small = truncated.scaled_below (ms % 1000) (omega arith) in
        let same : u32 ((ms / 1000) <<< 16) ≡ ms / 1000 * 2 ^ 16 = omega arith in
        rw same (bit_or_fields 16 (ms / 1000) (d.scaled (ms % 1000)) (omega (arith, small)))

    -- A delay below 65536 s that is set in a block is read back with a loss of two milliseconds at
    -- most, and never larger, where the arithmetic of `double` is off by less than one unit and
    -- truncated; the divisor of the reader is not the factor of the writer.
    pub get_delay-set_delay :
        (bytes_of : ℕ → ℕ) (ms : ℕ)
        → ms < 65536000
        → (b : Buffer) × (back : ℕ) × (set_delay_since_last_sr_ms
              (record { size = 24; bytes = bytes_of })
              ms
            ≡ done b)
          × (get_delay_since_last_sr_ms b ≡ done back)
          × (back ≤ ms)
          × (ms ≤ back + 2)
    unfolding set_delay_since_last_sr_ms get_delay_since_last_sr_ms set_delay_since_last_sr
        get_delay_since_last_sr write32 read32 store load
    get_delay-set_delay bytes_of ms fits =
        let x = d.scaled (ms % 1000) in
        let below : x * 1000 ≤ ms % 1000 * 65535 =
          truncated.scaled_below (ms % 1000) (omega arith) in
        let above : ms % 1000 * 65535 ≤ (x + 1) * 1000 =
          truncated.scaled_above (ms % 1000) (omega arith) in
        let word = ms / 1000 * 2 ^ 16 + x in
        let mask : bit_and word 0xFFFF ≡ x = bit_and_mask 16 word ∙ omega (arith, below) in
        let seconds : u32 ((word >>> 16) * 1000) ≡ ms / 1000 * 1000 = omega (arith, below) in
        (
          _,
          d.with_rest (ms / 1000 * 1000) x,
          refl,
          rw (packed ms fits, read_u32-write_u32 io big word (omega (arith, below)), seconds, mask)
              refl,
          omega (
            arith,
            below,
            truncated.rest_below (ms / 1000 * 1000) x (omega arith) (omega (arith, below)),
          ),
          omega (
            arith,
            above,
            truncated.rest_above (ms / 1000 * 1000) x (omega arith) (omega (arith, below)),
          ),
        )
