-- ===== src/Ber/Length/RoundTrip.antt =====
-- What `encode_len` writes, `decode_len` reads, and how long it is.
use iec_61850_studio.Base.{
  ℕ, zero, suc, ◌+◌, ◌-◌, ◌*◌, ◌/◌, ◌%◌, ◌^◌, ◌≤◌, ◌<◌, bit_and, [], ◌∷◌, ◌++◌, length, drop, ltb,
  ◌≡◌, refl, ap, ◌∙◌, arith, All-drop, length-drop, length-append, Bool-cases, inl, inr, dec_lt,
  subst,
}
use mathlib.Core.Logic.{◌≢◌}
use iec_61850_studio.Base.Result.{ok, err}
use iec_61850_studio.Base.Bits.{bit_or_field, and_0x7f}
use iec_61850_studio.Base.Words.{
  Bytes, be_bytes, IsByte, IsBytes, from_be, from_be-be_bytes, length-be_bytes, be_bytes-IsBytes,
  fold_shl8, fold_shl8_lem, shl8_or, shl8_or_64,
}
use iec_61850_studio.Ber.Error.{BerError, unexpected_eof, out_of_fuel}
use iec_61850_studio.Ber.Length.{
  first_nonzero, encode_len, len_encoded_size, len_octets, decode_len,
}

abbrev significant : Bytes → Bytes
significant bytes = drop (first_nonzero bytes) bytes

-- Dropping the leading zeros keeps the number and at least one octet.
first_nonzero-lt : (b : ℕ) (bs : Bytes) → first_nonzero (b ∷ bs) ≤ length bs
unfolding first_nonzero
first_nonzero-lt b [] = ground arith
first_nonzero-lt b (c ∷ cs) = ground (arith, first_nonzero-lt c cs)

from_be-significant : (bs : Bytes) → from_be (significant bs) ≡ from_be bs
unfolding first_nonzero
from_be-significant [] = refl
from_be-significant (b ∷ []) = ground arith
from_be-significant (b ∷ c ∷ cs) = ground (arith, from_be-significant (c ∷ cs))

le-mul_pos : (b p : ℕ) → 1 ≤ b → p ≤ b * p
le-mul_pos b p h = grind arith

-- No octet that is left could be dropped.
significant-minimal :
    (bs : Bytes) → 0 < from_be bs → 256 ^ (length (significant bs) - 1) ≤ from_be bs
unfolding first_nonzero
significant-minimal [] h = absurd (omega arith)
significant-minimal (b ∷ []) h = ground arith
significant-minimal (b ∷ c ∷ cs) h =
    ground (arith, significant-minimal (c ∷ cs), le-mul_pos b (256 ^ length (c ∷ cs)))

len_octets-append :
    (bs rest : Bytes) (acc : ℕ) → len_octets (length bs) (bs ++ rest) acc ≡ ok (fold_shl8 acc bs)
unfolding len_octets fold_shl8
len_octets-append [] rest acc = refl
len_octets-append (b ∷ bs) rest acc = len_octets-append bs rest (shl8_or 64 acc b)

length-significant :
    (b : ℕ) (bs : Bytes)
    → (1 ≤ length (significant (b ∷ bs))) × (length (significant (b ∷ bs)) ≤ suc (length bs))
length-significant b bs =
    omega (arith, first_nonzero-lt b bs, length-drop (first_nonzero (b ∷ bs)) (b ∷ bs))

from_be-significant_8 : (len : ℕ) → len < 2 ^ 64 → from_be (significant (be_bytes 8 len)) ≡ len
from_be-significant_8 len h =
    from_be-significant (be_bytes 8 len) ∙ from_be-be_bytes 8 len ∙ omega arith

-- The octets of the long form, as they were before the loop read them.
decode_long :
    (bs rest : Bytes)
    → IsBytes bs
    → 1 ≤ length bs
    → length bs ≤ 8
    → decode_len ((length bs + 128) ∷ (bs ++ rest)) ≡ ok (from_be bs % 2 ^ 64, 1 + length bs)
unfolding decode_len
decode_long bs rest hb lo hi = ground (
  arith,
  and_0x7f (length bs + 128),
  len_octets-append bs rest 0,
  fold_shl8_lem 0 bs (omega arith) hb,
)

encode_len_long :
    (out : Bytes) (len : ℕ)
    → 128 ≤ len
    → encode_len out len
      ≡ out ++ ((length (significant (be_bytes 8 len)) + 128) ∷ significant (be_bytes 8 len))
unfolding encode_len
encode_len_long out len h = ground (
  arith,
  length-significant (len / 256 ^ 7 % 256) (be_bytes 7 len),
  bit_or_field 7 1 (length (significant (be_bytes 8 len))),
  length-be_bytes 7 len,
)

encode_len_short : (out : Bytes) (len : ℕ) → len < 128 → encode_len out len ≡ out ++ (len ∷ [])
unfolding encode_len
encode_len_short out len h = ground arith

len_encoded_size_long :
    (len : ℕ) → 128 ≤ len → len_encoded_size len ≡ 1 + length (significant (be_bytes 8 len))
unfolding len_encoded_size
len_encoded_size_long len h =
    ground (arith, length-drop (first_nonzero (be_bytes 8 len)) (be_bytes 8 len))

len_encoded_size_short : (len : ℕ) → len < 128 → len_encoded_size len ≡ 1
unfolding len_encoded_size
len_encoded_size_short len h = ground arith

pub encode_len-append : (out : Bytes) (len : ℕ) → encode_len out len ≡ out ++ encode_len [] len
unfolding encode_len
encode_len-append out len = elim (Bool-cases (ltb len 0x80)) [ inl e ↦ rw e | inr e ↦ rw e ]

pub encode_len-IsBytes : (len : ℕ) → IsBytes (encode_len [] len)
encode_len-IsBytes len = elim (dec_lt len 128) [
  | yes h ↦ rw (encode_len_short [] len h) (omega arith, tt)
  | no h ↦ rw (encode_len_long [] len (omega arith)) (
    omega (arith, length-significant (len / 256 ^ 7 % 256) (be_bytes 7 len), length-be_bytes 7 len),
    All-drop IsByte (first_nonzero (be_bytes 8 len)) (be_bytes 8 len) (be_bytes-IsBytes 8 len),
  )
]

-- `decode_len` reads back a length below 2 ^ 64 that `encode_len` wrote, whatever follows it, and takes as
-- many octets as `len_encoded_size` says.
pub decode_len-encode_len :
    (len : ℕ) (rest : Bytes)
    → len < 2 ^ 64
    → decode_len (encode_len [] len ++ rest) ≡ ok (len, len_encoded_size len)
decode_len-encode_len len rest h = elim (dec_lt len 128) [
  | yes short ↦
      rw (encode_len_short [] len short, len_encoded_size_short len short) (read_short short)
  | no long ↦
      rw (encode_len_long [] len (omega arith), len_encoded_size_long len (omega arith))
        (decode_long (significant bytes) rest
            (All-drop IsByte (first_nonzero bytes) bytes (be_bytes-IsBytes 8 len)) (lens.0)
            (omega (arith, lens.1, length-be_bytes 7 len))
          ∙ ap (λ (t : ℕ). ok (t, 1 + length (significant bytes)))
              {x = from_be (significant bytes) % 2 ^ 64} {y = len}
              (omega (arith, from_be-significant_8 len h)))
]
  where
    bytes : Bytes
    bytes = be_bytes 8 len

    lens :
        (1 ≤ length (significant bytes))
        × (length (significant bytes) ≤ suc (length (be_bytes 7 len)))
    lens = length-significant (len / 256 ^ 7 % 256) (be_bytes 7 len)

    read_short : len < 128 → decode_len (len ∷ rest) ≡ ok (len, 1)
    read_short short = unfold decode_len in ground arith

significant-minimal_8 :
    (len : ℕ) → 0 < len → len < 2 ^ 64 → 256 ^ (length (significant (be_bytes 8 len)) - 1) ≤ len
significant-minimal_8 len p h =
    let e : from_be (be_bytes 8 len) ≡ len = from_be-be_bytes 8 len ∙ omega arith in
    omega (arith, e, significant-minimal (be_bytes 8 len) (omega (arith, e)))

-- For a length below 2 ^ 64, `len_encoded_size` counts the octets that `encode_len`
-- appends: one below 128, and from there on one more than the fewest octets that hold the length.
pub length-encode_len :
    (out : Bytes) (len : ℕ)
    → len < 2 ^ 64
    → (length (encode_len out len) ≡ length out + len_encoded_size len)
      × (len < 128 → len_encoded_size len ≡ 1)
      × (128 ≤ len → 256 ^ (len_encoded_size len - 2) ≤ len)
      × (1 ≤ len_encoded_size len)
      × (len_encoded_size len ≤ 9)
length-encode_len out len h = elim (dec_lt len 128) [
  | yes short ↦
      rw (encode_len_short out len short, len_encoded_size_short len short)
        (
          length-append out (len ∷ []),
          λ _. refl,
          λ long. absurd (omega arith),
          omega arith,
          omega arith,
        )
  | no long ↦
      rw (encode_len_long out len (omega arith), len_encoded_size_long len (omega arith))
        (
          omega (arith, length-append out _),
          λ short. absurd (omega arith),
          λ _.
              subst (λ (t : ℕ). 256 ^ t ≤ len) (omega arith)
                (significant-minimal_8 len (omega arith) h),
          omega arith,
          omega (
            arith,
            length-significant (len / 256 ^ 7 % 256) (be_bytes 7 len),
            length-be_bytes 7 len,
          ),
        )
]

len_octets_bounds :
    (n : ℕ) (rest : Bytes) (acc len : ℕ)
    → IsBytes rest
    → acc < 2 ^ 64
    → len_octets n rest acc ≡ ok len
    → (len < 2 ^ 64) × (n ≤ length rest)
unfolding len_octets
len_octets_bounds zero rest acc len hb ha e = ground arith
len_octets_bounds (suc n) [] acc len hb ha e = cc
len_octets_bounds (suc n) (b ∷ bs) acc len hb ha e = omega (
  arith,
  len_octets_bounds n bs (shl8_or 64 acc b) len hb.1 (rw (shl8_or_64 acc b hb.0) (omega arith)) e,
)

-- A length that is read from bytes fits a `usize`, and was read from one to nine octets of the input.
pub decode_len_bounds :
    (src : Bytes) (len n : ℕ)
    → IsBytes src
    → decode_len src ≡ ok (len, n)
    → (len < 2 ^ 64) × (1 ≤ n) × (n ≤ 9) × (n ≤ length src)
unfolding decode_len
decode_len_bounds [] len n hb e = cc
decode_len_bounds (first ∷ rest) len n hb e =
    ground (arith, len_octets_bounds (bit_and first 0x7f) rest 0 len hb.1 (omega arith), hb.0)

len_octets-eq-err :
    (n : ℕ) (src : Bytes) (len : ℕ) (x : BerError)
    → len_octets n src len ≡ err x
    → x ≡ unexpected_eof
unfolding len_octets
len_octets-eq-err zero src len x e = cc
len_octets-eq-err (suc n) [] len x e = cc
len_octets-eq-err (suc n) (b ∷ bs) len x e = len_octets-eq-err n bs (shl8_or 64 len b) x e

pub decode_len-ne-out_of_fuel : (src : Bytes) → decode_len src ≢ err out_of_fuel
unfolding decode_len
decode_len-ne-out_of_fuel [] = λ e. cc
decode_len-ne-out_of_fuel (first ∷ rest) =
    ground (arith, len_octets-eq-err (bit_and first 0x7f) rest 0 out_of_fuel)
