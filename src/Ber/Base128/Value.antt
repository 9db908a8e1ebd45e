-- ===== src/Ber/Base128/Value.antt =====
-- The number that the groups of seven bits stand for.
use iec_61850_studio.Base.{
  ℕ, zero, suc, ◌+◌, ◌*◌, ◌/◌, ◌%◌, ◌^◌, ◌≤◌, ◌<◌, bit_or, [], ◌∷◌, ◌≡◌, arith, All, length,
}
use native.Mathlib.Nat.{pow-suc}
use iec_61850_studio.Base.Bits.{bit_or_field, and_0x7f}
use iec_61850_studio.Base.Words.{Bytes}
use iec_61850_studio.Ber.Base128.{base128_stack}

-- Lowest group first, as on the stack.
abbrev pub from_groups : Bytes → ℕ
from_groups [] = 0
from_groups (g ∷ gs) = g + 128 * from_groups gs

abbrev pub IsGroup : ℕ → Type 0
IsGroup g = g < 128

pub base128_stack-IsGroup : (n v : ℕ) → All IsGroup (base128_stack n v)
unfolding base128_stack
base128_stack-IsGroup zero v = tt
base128_stack-IsGroup (suc n) v = ground (arith, and_0x7f v, base128_stack-IsGroup n (v / 128))

-- With `n` groups at hand the stack holds all of a number of `7 * n` bits.
pub from_groups-base128_stack : (n v : ℕ) → v < 128 ^ n → from_groups (base128_stack n v) ≡ v
unfolding base128_stack
from_groups-base128_stack zero v h = omega arith
from_groups-base128_stack (suc n) v h =
    ground (arith, and_0x7f v, from_groups-base128_stack n (v / 128) (omega (arith, pow-suc 128 n)))

pub length-base128_stack : (n v : ℕ) → length (base128_stack n v) ≤ n
unfolding base128_stack
length-base128_stack zero v = omega arith
length-base128_stack (suc n) v = ground (arith, length-base128_stack n (v / 128))

-- `(n << 7) | g` in a `u32`.
pub shl7_or : (n g : ℕ) → g < 128 → bit_or (n * 2 ^ 7 % 2 ^ 32) g ≡ (n * 128 + g) % 2 ^ 32
shl7_or n g h =
    let e : n * 2 ^ 7 % 2 ^ 32 ≡ n % 2 ^ 25 * 2 ^ 7 = omega arith in
    rw (e, bit_or_field 7 (n % 2 ^ 25) g h) (omega arith)
