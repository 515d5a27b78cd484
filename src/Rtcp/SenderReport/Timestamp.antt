-- ===== src/Rtcp/SenderReport/Timestamp.antt =====
-- The NTP timestamp of a sender report: `SetTimestamp`, `GetTimestamp` and `GetNTPTimestamp`. What they
-- compute in `double` is a parameter.
use spadia.Common.{
  ℕ, ◌+◌, ◌-◌, ◌*◌, ◌/◌, ◌^◌, ◌≤◌, ◌<◌, ◌≡◌, ◌∙◌, ap, u32, u64, ◌<<<◌, bit_or, arith,
}
use spadia.Common.Bits.{bit_or_fields}
use spadia.Rtcp.SenderReport.{SenderReport}

-- `time / 1E6` as `uint32_t`, `(time - sec * 1E6) * 4294.967296` as `uint32_t`, `ts * 1E6` as
-- `uint64_t`, and `ts + ntpFrac / 4294.967296` as `uint64_t`.
pub record Doubles : Type 0 where
  pub seconds : ℕ → ℕ
  pub fraction : ℕ → ℕ → ℕ
  pub micros : ℕ → ℕ
  pub add_fraction : ℕ → ℕ → ℕ

-- What holds of IEEE doubles at these sizes. Integers below 2 ^ 53 are exact. The quotient by 1E6 stays
-- below the next integer when it is rounded, and so does the product with 4294.967296, that is
-- 2 ^ 32 / 10 ^ 6, unless it is an integer. A sum below 2 ^ 51 is rounded to the nearest multiple of
-- 1 / 4 or closer, up or down, so that it and the quotient in it are off by less than 1 / 4. The
-- casts truncate.
pub record IsTruncated (d : Doubles) : Type 0 where
  pub seconds_lem : (t : ℕ) → t < 2 ^ 51 → d.seconds t ≡ t / 10 ^ 6
  pub fraction_below :
      (t s : ℕ)
      → t < 2 ^ 51
      → s * 10 ^ 6 ≤ t
      → t < (s + 1) * 10 ^ 6
      → d.fraction t s * 10 ^ 6 ≤ (t - s * 10 ^ 6) * 2 ^ 32
  pub fraction_above :
      (t s : ℕ)
      → t < 2 ^ 51
      → s * 10 ^ 6 ≤ t
      → t < (s + 1) * 10 ^ 6
      → (t - s * 10 ^ 6) * 2 ^ 32 ≤ (d.fraction t s + 1) * 10 ^ 6
  pub micros_lem : (s : ℕ) → s < 2 ^ 32 → d.micros s ≡ s * 10 ^ 6
  pub add_below :
      (t f : ℕ)
      → t < 2 ^ 51
      → f < 2 ^ 32
      → d.add_fraction t f * 2 ^ 32 ≤ t * 2 ^ 32 + f * 10 ^ 6 + 2 ^ 30
  pub add_above :
      (t f : ℕ)
      → t < 2 ^ 51
      → f < 2 ^ 32
      → t * 2 ^ 32 + f * 10 ^ 6 ≤ (d.add_fraction t f + 1) * 2 ^ 32 + 2 ^ 30

-- `GetNTPTimestamp` returns 64 bits as `uint32_t`.
unfoldable pub get_ntp_timestamp : SenderReport → ℕ
get_ntp_timestamp r = u32 (bit_or (u64 (r.ntp_sec <<< 32)) r.ntp_frac)

module _ (d : Doubles) where
  unfoldable pub set_timestamp : SenderReport → ℕ → SenderReport
  set_timestamp r time =
      let sec = d.seconds time in
      record r { ntp_sec = u32 (sec + 2208988800); ntp_frac = d.fraction time sec }

  unfoldable pub get_timestamp : SenderReport → ℕ
  get_timestamp r = d.add_fraction (d.micros (u64 (r.ntp_sec + 2 ^ 64 - 2208988800))) r.ntp_frac

  -- A time in us of before the year 2036, where the seconds since 1900 leave 32 bits, is read back as
  -- it was set or one us less, where the sum in `double` is off by less than a quarter and truncated;
  -- and of the NTP timestamp then set `GetNTPTimestamp` returns the fraction alone.
  pub get_timestamp-set_timestamp :
      (r : SenderReport) (time : ℕ)
      → IsTruncated d
      → time < 2085978496 * 10 ^ 6
      → (get_timestamp (set_timestamp r time) ≤ time)
        × (time ≤ get_timestamp (set_timestamp r time) + 1)
        × (get_ntp_timestamp (set_timestamp r time) ≡ d.fraction time (time / 10 ^ 6))
  unfolding get_timestamp set_timestamp get_ntp_timestamp
  get_timestamp-set_timestamp r time h early =
      let s = time / 10 ^ 6 in
      let f = d.fraction time s in
      let below : f * 10 ^ 6 ≤ (time - s * 10 ^ 6) * 2 ^ 32 =
        h.fraction_below time s (omega (arith, early)) (omega arith) (omega arith) in
      let above : (time - s * 10 ^ 6) * 2 ^ 32 ≤ (f + 1) * 10 ^ 6 =
        h.fraction_above time s (omega (arith, early)) (omega arith) (omega arith) in
      let sec : d.seconds time ≡ s = h.seconds_lem time (omega (arith, early)) in
      let back : u64 (u32 (s + 2208988800) + 2 ^ 64 - 2208988800) ≡ s = omega (arith, early) in
      let whole : d.micros s ≡ s * 10 ^ 6 = h.micros_lem s (omega (arith, early)) in
      let low = h.add_below (s * 10 ^ 6) f (omega (arith, early)) (omega (arith, below)) in
      let high = h.add_above (s * 10 ^ 6) f (omega (arith, early)) (omega (arith, below)) in
      let n = u32 (s + 2208988800) in
      let same : get_timestamp (set_timestamp r time) ≡ d.add_fraction (s * 10 ^ 6) f =
        rw sec
          (ap (λ z. d.add_fraction (d.micros z) f) back ∙ ap (λ z. d.add_fraction z f) whole) in
      let joined : bit_or (n * 2 ^ 32) f ≡ n * 2 ^ 32 + f =
        bit_or_fields 32 n f (omega (arith, below)) in
      let shifted : u64 (n <<< 32) ≡ n * 2 ^ 32 = omega arith in
      (
        rw same (omega (arith, low, below)),
        rw same (omega (arith, high, above)),
        rw sec (ap (λ z. u32 (bit_or z f)) shifted ∙ ap u32 joined ∙ omega (arith, below)),
      )
