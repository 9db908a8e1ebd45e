-- ===== src/Base/Words.antt =====
-- Machine words: bytes, widths, `to_be_bytes` and the fold `(acc << 8) | b`.
use Prim.Native.Nat.{ℕ, zero, suc, ◌+◌, ◌*◌, ◌/◌, ◌%◌, ◌^◌, ◌<◌, bit_or}
use mathlib.Core.Path.{◌≡◌, refl, sym, ap, ◌∙◌}
use mathlib.Core.List.{List, [], ◌∷◌}
use native.Mathlib.Nat.{pow-suc, mod-lt, div-add-mod, mod-eq_of_lt, mul-add-mod_self_left}
use native.Mathlib.Omega.{arith}
use iec_61850_studio.Base.Lists.{length, All}
use iec_61850_studio.Base.Bits.{bit_or_field}

abbrev pub Bytes : Type 0
Bytes = List ℕ

abbrev pub IsByte : ℕ → Type 0
IsByte b = b < 256

abbrev pub IsBytes : Bytes → Type 0
IsBytes = All IsByte

-- `v.to_be_bytes()` of an unsigned integer of `n` octets.
abbrev pub be_bytes : ℕ → ℕ → Bytes
be_bytes zero v = []
be_bytes (suc n) v = (v / 256 ^ n % 256) ∷ be_bytes n v

-- The number that a big-endian byte string stands for.
abbrev pub from_be : Bytes → ℕ
from_be [] = 0
from_be (b ∷ bs) = b * 256 ^ length bs + from_be bs

-- `(acc << 8) | b` in an unsigned integer of `w` bits.
abbrev pub shl8_or : ℕ → ℕ → ℕ → ℕ
shl8_or w acc b = bit_or (acc * 256 % 2 ^ w) b

pub length-be_bytes : (n v : ℕ) → length (be_bytes n v) ≡ n
length-be_bytes zero v = refl
length-be_bytes (suc n) v = ap suc (length-be_bytes n v)

pub be_bytes-IsBytes : (n v : ℕ) → IsBytes (be_bytes n v)
be_bytes-IsBytes zero v = tt
be_bytes-IsBytes (suc n) v = (omega arith, be_bytes-IsBytes n v)

pub from_be-lt : (bs : Bytes) → IsBytes bs → from_be bs < 256 ^ length bs
from_be-lt [] h = omega arith
from_be-lt (b ∷ bs) (hb, hbs) = grind (arith, pow-suc 256 (length bs), from_be-lt bs hbs)

-- A remainder by `p * 256` in two digits.
mod_digit : (p v : ℕ) → v % (p * 256) ≡ v / p % 256 * p + v % p
mod_digit zero v = omega arith
mod_digit (suc p) v =
    let low : ℕ = v / suc p % 256 * suc p + v % suc p in
    let whole : v ≡ suc p * 256 * (v / suc p / 256) + low =
      omega
        (arith, div-add-mod v (suc p), ap (λ (t : ℕ). t * suc p) (div-add-mod (v / suc p) 256)) in
    let small : low < suc p * 256 =
      grind
        (arith, mod-lt v {m = suc p} (omega arith), mod-lt (v / suc p) {m = 256} (omega arith)) in
    ap (λ (t : ℕ). t % (suc p * 256)) whole
    ∙ mul-add-mod_self_left (suc p * 256) (v / suc p / 256) low
    ∙ mod-eq_of_lt small

pub from_be-be_bytes : (n v : ℕ) → from_be (be_bytes n v) ≡ v % 256 ^ n
from_be-be_bytes zero v = omega arith
from_be-be_bytes (suc n) v =
    rw (length-be_bytes n v, from_be-be_bytes n v, pow-suc 256 n) (sym (mod_digit (256 ^ n) v))

pub shl8_or_64 : (acc b : ℕ) → b < 256 → shl8_or 64 acc b ≡ (acc * 256 + b) % 2 ^ 64
shl8_or_64 acc b h =
    let e : acc * 256 % 2 ^ 64 ≡ acc % 2 ^ 56 * 2 ^ 8 = omega arith in
    rw (e, bit_or_field 8 (acc % 2 ^ 56) b h) (omega arith)

pub mul_mod_add : (m x p f : ℕ) → (x % m * p + f) % m ≡ (x * p + f) % m
mul_mod_add m x p f =
    let e : x * p + f ≡ m * (x / m * p) + (x % m * p + f) =
      omega (arith, ap (λ (t : ℕ). t * p) (div-add-mod x m)) in
    sym (ap (λ (t : ℕ). t % m) e ∙ mul-add-mod_self_left m (x / m * p) (x % m * p + f))

-- What the loop `for &b in bytes { acc = (acc << 8) | b }` leaves in a `u64`.
unfoldable pub fold_shl8 : ℕ → Bytes → ℕ
fold_shl8 acc [] = acc
fold_shl8 acc (b ∷ bs) = fold_shl8 (shl8_or 64 acc b) bs

pub fold_shl8_lem :
    (acc : ℕ) (bs : Bytes)
    → acc < 2 ^ 64
    → IsBytes bs
    → fold_shl8 acc bs ≡ (acc * 256 ^ length bs + from_be bs) % 2 ^ 64
unfolding fold_shl8
fold_shl8_lem acc [] h hbs = omega arith
fold_shl8_lem acc (b ∷ bs) h (hb, hbs) =
    rw (shl8_or_64 acc b hb, fold_shl8_lem ((acc * 256 + b) % 2 ^ 64) bs (omega arith) hbs)
      (mul_mod_add (2 ^ 64) (acc * 256 + b) (256 ^ length bs) (from_be bs)
        ∙ ap (λ (t : ℕ). t % 2 ^ 64)
            (omega (arith, ap (λ (t : ℕ). acc * t) (pow-suc 256 (length bs)))))
