-- ===== src/Ber/Std.antt =====
-- What the codec uses of Rust's standard library and cannot be read here: UTF-8 validation and the
-- conversions between `f32` and `f64`. A float is its bit pattern.
use iec_61850_studio.Base.{ℕ, ◌^◌, ◌<◌, ◌≡◌, Bool, true}
use iec_61850_studio.Base.Words.{Bytes}

pub record Std : Type 0 where
  -- `std::str::from_utf8(bytes).is_ok()`
  pub utf8 : Bytes → Bool
  -- `value as f32` and `value as f64`
  pub as_f32 : ℕ → ℕ
  pub as_f64 : ℕ → ℕ
  -- `a == b` on `f64`, which is not equality of patterns: NaN differs from itself
  pub f64_eq : ℕ → ℕ → Bool

-- IEEE 754: narrowing gives 32 bits, and where the value survives it, the pattern does. (Zero keeps
-- its sign, and a NaN is equal to nothing.)
pub record IsIeee (s : Std) : Type 0 where
  pub as_f32-lt : (v : ℕ) → s.as_f32 v < 2 ^ 32
  pub exact : (v : ℕ) → s.f64_eq (s.as_f64 (s.as_f32 v)) v ≡ true → s.as_f64 (s.as_f32 v) ≡ v
