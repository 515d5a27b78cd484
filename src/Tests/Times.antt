-- ===== src/Tests/Times.antt =====
-- The delay of a report block and the timestamp of a sender report, with exact arithmetic for `double`, but for
-- a sum that is rounded to the nearest quarter.
use spadia.Common.{ℕ, ◌+◌, ◌-◌, ◌*◌, ◌/◌, ◌^◌, ◌≤◌, ◌≡◌, refl, arith, done}
use spadia.Memory.{Buffer}
use spadia.Rtcp.ReportBlock.Delay
use spadia.Rtcp.ReportBlock.Delay.{
  set_delay_since_last_sr_ms, get_delay_since_last_sr_ms, get_delay-set_delay,
}
use spadia.Rtcp.SenderReport.{new_report}
use spadia.Rtcp.SenderReport.Timestamp
use spadia.Rtcp.SenderReport.Timestamp.{
  get_ntp_timestamp, set_timestamp, get_timestamp, get_timestamp-set_timestamp,
}
use spadia.Tests.{big_endian, big_endian-IsBigEndian}

abbrev delay_arithmetic : Delay.Doubles
delay_arithmetic = record {
  scaled = λ x. x * 65535 / 1000;
  with_rest = λ k x. (k * 65635 + x * 1000) / 65635;
}

delay_arithmetic-IsTruncated : Delay.IsTruncated delay_arithmetic
delay_arithmetic-IsTruncated = record {
  scaled_below = λ x small. omega arith;
  scaled_above = λ x small. omega arith;
  rest_below = λ k x _ _. omega arith;
  rest_above = λ k x _ _. omega arith;
}

-- 65.999 s.
get_delay-set_delay_example :
    (b : Buffer) × (back : ℕ) × (set_delay_since_last_sr_ms big_endian delay_arithmetic
        (record { size = 24; bytes = λ _. 0 })
        65999
      ≡ done b)
    × (get_delay_since_last_sr_ms big_endian delay_arithmetic b ≡ done back)
    × (back ≤ 65999)
    × (65999 ≤ back + 2)
get_delay-set_delay_example =
    get_delay-set_delay big_endian delay_arithmetic big_endian-IsBigEndian
      delay_arithmetic-IsTruncated (λ _. 0) 65999 (omega arith)

abbrev time_arithmetic : Timestamp.Doubles
time_arithmetic = record {
  seconds = λ t. t / 10 ^ 6;
  fraction = λ t s. (t - s * 10 ^ 6) * 2 ^ 32 / 10 ^ 6;
  micros = λ s. s * 10 ^ 6;
  add_fraction = λ t f. (t * 2 ^ 32 + f * 10 ^ 6 + 2 ^ 29) / 2 ^ 30 / 4;
}

time_arithmetic-IsTruncated : Timestamp.IsTruncated time_arithmetic
time_arithmetic-IsTruncated = record {
  seconds_lem = λ t _. refl;
  fraction_below = λ t s _ _ _. omega arith;
  fraction_above = λ t s _ _ _. omega arith;
  micros_lem = λ s _. refl;
  add_below = λ t f _ _. omega arith;
  add_above = λ t f _ _. omega arith;
}

get_timestamp-set_timestamp_example :
    (get_timestamp time_arithmetic (set_timestamp time_arithmetic new_report 1577836800123457)
      ≤ 1577836800123457)
    × (1577836800123457
        ≤ get_timestamp time_arithmetic (set_timestamp time_arithmetic new_report 1577836800123457)
          + 1)
    × (get_ntp_timestamp (set_timestamp time_arithmetic new_report 1577836800123457)
        ≡ time_arithmetic.fraction 1577836800123457 1577836800)
get_timestamp-set_timestamp_example =
    get_timestamp-set_timestamp time_arithmetic new_report 1577836800123457
      time_arithmetic-IsTruncated (omega arith)
