-- ===== src/Sv/Clock.antt =====
-- crates/iec61850-sv/src/config.rs, `now_utc`, read by crates/iec61850-model/src/quality.rs.
use iec_61850_studio.Base.{
  ℕ, ◌+◌, ◌*◌, ◌/◌, ◌%◌, ◌^◌, ◌<◌, ◌≤◌, some, false, ◌≡◌, refl, ap, ◌∙◌, arith,
}
use iec_61850_studio.Base.Words.{be_bytes, from_be, from_be-be_bytes}
use iec_61850_studio.Model.Quality.{timestamp_from_bytes, nanos, from_byte}
use iec_61850_studio.Sv.Publisher.{now_utc}

-- The fraction that the clock's nanoseconds are cut to, and the nanoseconds that it stands for.
cut_fraction :
    (n : ℕ)
    → n < 1000000000
    → (n * 2 ^ 24 / 1000000000 % 256 ^ 3 ≡ n * 2 ^ 24 / 1000000000)
      × (n * 2 ^ 24 / 1000000000 * 1000000000 / 2 ^ 24 % 2 ^ 32 ≤ n)
      × (n < n * 2 ^ 24 / 1000000000 * 1000000000 / 2 ^ 24 % 2 ^ 32 + 61)
cut_fraction n h = omega arith

-- A time of the clock, in seconds that fit 32 bits and nanoseconds below a second, survives the octets that the
-- publisher of sampled values makes of it: the seconds exactly, the nanoseconds rounded down by at most 60, with the
-- clock in order and ten bits of the fraction told as significant.
pub timestamp_from_bytes-now_utc :
    (secs n : ℕ)
    → secs < 2 ^ 32
    → n < 1000000000
    → ((timestamp_from_bytes (now_utc (some (secs, n)))).seconds ≡ secs)
      × (nanos (timestamp_from_bytes (now_utc (some (secs, n)))) ≤ n)
      × (n ≤ nanos (timestamp_from_bytes (now_utc (some (secs, n)))) + 60)
      × ((timestamp_from_bytes (now_utc (some (secs, n)))).quality ≡ record {
        leap_seconds_known = false;
        clock_failure = false;
        clock_not_synchronized = false;
        fraction_bits = 10;
      })
unfolding timestamp_from_bytes now_utc nanos from_byte
timestamp_from_bytes-now_utc secs n hs hn =
    let f : ℕ = n * 2 ^ 24 / 1000000000 in
    let (fits, below, above) = cut_fraction n hn in
    let kept : from_be (be_bytes 3 f) ≡ f = from_be-be_bytes 3 f ∙ fits in
    let same = ap (λ (t : ℕ). t * 1000000000 / 2 ^ 24 % 2 ^ 32) kept in
    (
      from_be-be_bytes 4 secs ∙ omega arith,
      omega (arith, same, below),
      omega (arith, same, above),
      refl,
    )
