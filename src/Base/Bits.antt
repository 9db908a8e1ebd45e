-- ===== src/Base/Bits.antt =====
-- `|` of disjoint fields and `&` with a mask of low bits, as arithmetic.
use Prim.Native.Nat.{
  ℕ, zero, suc, ◌+◌, ◌-◌, ◌*◌, ◌/◌, ◌%◌, ◌^◌, ◌≤◌, ◌<◌, min, max, bit_and, bit_or, digits,
  bit_and-bitwise, bit_or-bitwise,
}
use mathlib.Core.Path.{◌≡◌, refl, ap, ◌∙◌}
use mathlib.Core.Bool.{Bool, true, false}
use mathlib.Core.WellFounded
use native.Mathlib.Nat.{pow-suc, one-le-pow}
use native.Mathlib.Omega.{arith}
use native.Mathlib.Decide.{ℕ_discrete}
use iec_61850_studio.Base.Order.{lt_wf}
use iec_61850_studio.Base.Tests.{◌==◌, ==_iff, if◌then◌else◌}

module _ (last : ℕ → ℕ) (digit : ℕ → ℕ → ℕ) where
  -- Fuel beyond the first number changes nothing.
  digits_enough : (n m a b : ℕ) → a ≤ n → a ≤ m → digits last digit n a b ≡ digits last digit m a b
  digits_enough zero zero a b p q = refl
  digits_enough (suc n) zero zero b p q = refl
  digits_enough zero (suc m) zero b p q = refl
  digits_enough (suc n) (suc m) zero b p q = refl
  digits_enough (suc n) zero (suc a) b p q = absurd (omega arith)
  digits_enough zero (suc m) (suc a) b p q = absurd (omega arith)
  digits_enough (suc n) (suc m) (suc a) b p q =
      ap (λ (t : ℕ). t * 2 + digit (suc a % 2) (b % 2))
        (digits_enough n m (suc a / 2) (b / 2) (omega arith) (omega arith))

-- The lowest binary digit apart from the others.
or_low : (a b : ℕ) → bit_or a b ≡ bit_or (a / 2) (b / 2) * 2 + max (a % 2) (b % 2)
or_low zero b = simp bit_or-bitwise (omega arith)
or_low (suc a) b = simp bit_or-bitwise (
    omega (
      arith,
      digits_enough (λ y. y) max a (suc a / 2) (suc a / 2) (b / 2) (omega arith) (omega arith),
    ))

and_low : (a b : ℕ) → bit_and a b ≡ bit_and (a / 2) (b / 2) * 2 + min (a % 2) (b % 2)
and_low zero b = simp bit_and-bitwise (omega arith)
and_low (suc a) b = simp bit_and-bitwise (
    omega (
      arith,
      digits_enough (λ y. 0) min a (suc a / 2) (suc a / 2) (b / 2) (omega arith) (omega arith),
    ))

bit_or-zero : (a : ℕ) → bit_or a 0 ≡ a
bit_or-zero a = WellFounded.induction lt_wf {C = λ k. bit_or k 0 ≡ k} a go
  where
    go : (k : ℕ) → ((m : ℕ) → m < k → bit_or m 0 ≡ m) → bit_or k 0 ≡ k
    go zero ih = refl
    go (suc k) ih = omega (arith, or_low (suc k) 0, ih (suc k / 2) (omega arith))

bit_and-zero : (a : ℕ) → bit_and a 0 ≡ 0
bit_and-zero a = WellFounded.induction lt_wf {C = λ k. bit_and k 0 ≡ 0} a go
  where
    go : (k : ℕ) → ((m : ℕ) → m < k → bit_and m 0 ≡ 0) → bit_and k 0 ≡ 0
    go zero ih = refl
    go (suc k) ih = omega (arith, and_low (suc k) 0, ih (suc k / 2) (omega arith))

double_pow : (q k : ℕ) → q * 2 ^ suc k ≡ 2 * (q * 2 ^ k)
double_pow q k = omega (arith, ap (λ (t : ℕ). q * t) (pow-suc 2 k))

-- `(q << k) | r` is a sum where `r` has at most `k` bits.
pub bit_or_field : (k q r : ℕ) → r < 2 ^ k → bit_or (q * 2 ^ k) r ≡ q * 2 ^ k + r
bit_or_field zero q r h = ground (arith, bit_or-zero q)
bit_or_field (suc k) q r h = ground (
  arith,
  or_low (q * 2 ^ suc k) r,
  double_pow q k,
  pow-suc 2 k,
  bit_or_field k q (r / 2) (omega (arith, pow-suc 2 k)),
)

and_low_field : (k q r : ℕ) → r < 2 ^ k → bit_and (q * 2 ^ k + r) (2 ^ k - 1) ≡ r
and_low_field zero q r h = bit_and-zero (q * 1 + r) ∙ omega arith
and_low_field (suc k) q r h = ground (
  arith,
  and_low (q * 2 ^ suc k + r) (2 ^ suc k - 1),
  double_pow q k,
  pow-suc 2 k,
  and_low_field k q (r / 2) (omega (arith, pow-suc 2 k)),
)

-- `x & (2 ^ k - 1)` is the remainder by `2 ^ k`.
pub bit_and_mask : (k x : ℕ) → bit_and x (2 ^ k - 1) ≡ x % 2 ^ k
bit_and_mask k x = ground (arith, one-le-pow k 2, and_low_field k (x / 2 ^ k) (x % 2 ^ k))

-- A test on every byte, or on every number below a bound.
passes : (ℕ → Bool) → ℕ → Bool
passes test zero = true
passes test (suc top) = if test top then passes test top else false

passes_lem :
    (test : ℕ → Bool) (bound : ℕ) → passes test bound ≡ true → (b : ℕ) → b < bound → test b ≡ true
unfolding passes
passes_lem test zero ok b below = absurd (omega arith)
passes_lem test (suc top) ok b below = elim (ℕ_discrete b top) [
  | yes e ↦ rw e (ground (arith, ok))
  | no ne ↦ passes_lem test top (ground (arith, ok)) b (omega arith)
]

pub and_0x7f : (b : ℕ) → bit_and b 0x7f ≡ b % 128
and_0x7f = bit_and_mask 7

pub and_0x1f : (b : ℕ) → bit_and b 0x1f ≡ b % 32
and_0x1f = bit_and_mask 5

and_0x80_table : passes (λ b. bit_and b 0x80 == b / 128 * 128) 256 ≡ true
unfolding passes
and_0x80_table = refl

pub and_0x80 : (b : ℕ) → b < 256 → bit_and b 0x80 ≡ b / 128 * 128
and_0x80 b h = (==_iff _ _).0 (passes_lem _ 256 and_0x80_table b h)

and_0x20_table : passes (λ b. bit_and b 0x20 == b / 32 % 2 * 32) 256 ≡ true
unfolding passes
and_0x20_table = refl

pub and_0x20 : (b : ℕ) → b < 256 → bit_and b 0x20 ≡ b / 32 % 2 * 32
and_0x20 b h = (==_iff _ _).0 (passes_lem _ 256 and_0x20_table b h)

or_0x80_table : passes (λ b. bit_or b 0x80 == b + 128) 128 ≡ true
unfolding passes
or_0x80_table = refl

pub or_0x80 : (b : ℕ) → b < 128 → bit_or b 0x80 ≡ b + 128
or_0x80 b h = (==_iff _ _).0 (passes_lem _ 128 or_0x80_table b h)
