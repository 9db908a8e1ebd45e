-- ===== src/Ber/Primitives/Unsigned.antt =====
-- `Unsigned`: an INTEGER that is never negative, so a zero octet stands in front of a set top bit.
use iec_61850_studio.Base.{
  ℕ, ◌+◌, ◌*◌, ◌/◌, ◌%◌, ◌^◌, ◌≤◌, ◌<◌, bit_and, [], ◌∷◌, length, ◌≡◌, refl, ◌∙◌, ap, arith,
  Bool-cases, inl, inr, ◌==◌, sym, ℕ_discrete,
}
use iec_61850_studio.Base.Result.{ok}
use iec_61850_studio.Base.Words.{
  Bytes, IsBytes, be_bytes, from_be, from_be-be_bytes, length-be_bytes, be_bytes-IsBytes, fold_shl8,
  fold_shl8_lem,
}
use iec_61850_studio.Ber.Primitives.{
  strip_zeros, sign_octet, encode_unsigned, trim_sign, decode_unsigned, decode_integer, sign_extend,
}
use iec_61850_studio.Base.Bits.{and_0x80}

strip_zeros-value : (bs : Bytes) → from_be (strip_zeros bs) ≡ from_be bs
unfolding strip_zeros
strip_zeros-value [] = refl
strip_zeros-value (first ∷ []) = refl
strip_zeros-value (first ∷ second ∷ rest) = ground (arith, strip_zeros-value (second ∷ rest))

-- What is left: at least one octet, and no more than there were.
strip_zeros-shape :
    (first : ℕ) (rest : Bytes)
    → IsBytes (first ∷ rest)
    → (c : ℕ) × (cs : Bytes) × (strip_zeros (first ∷ rest) ≡ c ∷ cs)
      × IsBytes (c ∷ cs)
      × (length cs ≤ length rest)
unfolding strip_zeros
strip_zeros-shape first [] h = (first, [], refl, h, omega arith)
strip_zeros-shape first (second ∷ rest) (hf, h) = elim (Bool-cases (first == 0)) [
  | inl z ↦
      let (c, cs, e, hc, size) = strip_zeros-shape second rest h in
      (c, cs, rw z e, hc, omega (arith, size))
  | inr z ↦ (first, second ∷ rest, rw z, (hf, h), omega arith)
]

decode_trimmed :
    (first : ℕ) (rest : Bytes)
    → IsBytes (trim_sign (first ∷ rest))
    → length (trim_sign (first ∷ rest)) ≤ 8
    → decode_unsigned (first ∷ rest) ≡ ok (from_be (trim_sign (first ∷ rest)) % 2 ^ 64)
unfolding decode_unsigned
decode_trimmed first rest h size =
    ground (arith, fold_shl8_lem 0 (trim_sign (first ∷ rest)) (omega arith) h)

trim_sign_lem :
    (bs : Bytes)
    → IsBytes bs
    → IsBytes (trim_sign bs)
      × (length (trim_sign bs) ≤ length bs)
      × (from_be (trim_sign bs) ≡ from_be bs)
unfolding trim_sign
trim_sign_lem [] h = (h, omega arith, refl)
trim_sign_lem (first ∷ []) h = (h, omega arith, refl)
trim_sign_lem (first ∷ second ∷ rest) h = ground arith

sign_octet-decode :
    (c : ℕ) (cs : Bytes)
    → IsBytes (c ∷ cs)
    → length cs ≤ 7
    → decode_unsigned (sign_octet (c ∷ cs)) ≡ ok (from_be (c ∷ cs) % 2 ^ 64)
unfolding sign_octet
sign_octet-decode c cs h size = elim (Bool-cases (bit_and c 0x80 == 0)) [
  | inl clear ↦
      let (octets, shorter, value) = trim_sign_lem (c ∷ cs) h in
      rw clear (decode_trimmed c cs octets (omega arith) ∙ ap (λ (t : ℕ). ok (t % 2 ^ 64)) value)
  | inr top ↦ rw top (unfold trim_sign in decode_trimmed 0 (c ∷ cs) h (omega arith))
]

sign_octet-shape :
    (c : ℕ) (cs : Bytes)
    → IsBytes (c ∷ cs)
    → IsBytes (sign_octet (c ∷ cs))
      × (1 ≤ length (sign_octet (c ∷ cs)))
      × (length (sign_octet (c ∷ cs)) ≤ length cs + 2)
unfolding sign_octet
sign_octet-shape c cs h = ground arith

-- The content of an `Unsigned` decodes to the number that was encoded, for every `u64`.
pub decode_unsigned-encode_unsigned :
    (v : ℕ) → v < 2 ^ 64 → decode_unsigned (encode_unsigned v) ≡ ok v
unfolding encode_unsigned
decode_unsigned-encode_unsigned v h = elim (Bool-cases (v == 0)) [
  | inl z ↦ rw z (unfold decode_unsigned trim_sign fold_shl8 in ground arith)
  | inr z ↦
      let (c, cs, e, hc, size) = stripped in
      rw (z, e)
        (sign_octet-decode c cs hc (omega (arith, size, length-be_bytes 7 v))
          ∙ ap ok {x = from_be (c ∷ cs) % 2 ^ 64} {y = v} (omega (arith, ap from_be e, value)))
]
  where
    stripped :
        (c : ℕ) × (cs : Bytes) × (strip_zeros (be_bytes 8 v) ≡ c ∷ cs)
        × IsBytes (c ∷ cs)
        × (length cs ≤ length (be_bytes 7 v))
    stripped = strip_zeros-shape (v / 256 ^ 7 % 256) (be_bytes 7 v) (be_bytes-IsBytes 8 v)

    value : from_be (strip_zeros (be_bytes 8 v)) ≡ v
    value = strip_zeros-value (be_bytes 8 v) ∙ from_be-be_bytes 8 v ∙ omega arith

-- The content of an `Unsigned` has one to nine octets.
pub encode_unsigned_shape :
    (v : ℕ)
    → IsBytes (encode_unsigned v)
      × (1 ≤ length (encode_unsigned v))
      × (length (encode_unsigned v) ≤ 9)
unfolding encode_unsigned
encode_unsigned_shape v = elim (Bool-cases (v == 0)) [
  | inl z ↦ rw z (omega arith)
  | inr z ↦
      let (c, cs, e, hc, size) =
        strip_zeros-shape (v / 256 ^ 7 % 256) (be_bytes 7 v) (be_bytes-IsBytes 8 v) in
      let (octets, lo, hi) = sign_octet-shape c cs hc in
      rw (z, e) (octets, lo, omega (arith, size, hi, length-be_bytes 7 v))
]

decode_positive :
    (first : ℕ) (rest : Bytes)
    → IsBytes (first ∷ rest)
    → first < 128
    → length rest ≤ 7
    → decode_integer (first ∷ rest) ≡ ok (from_be (first ∷ rest) % 2 ^ 64)
unfolding decode_integer sign_extend
decode_positive first rest (hf, h) small size =
    ground (arith, fold_shl8_lem first rest (omega arith) h)

-- Eight octets with the top bit set are a number of 64 bits.
top_bit-length :
    (c : ℕ) (cs : Bytes) → length cs ≤ 7 → 128 ≤ c → from_be (c ∷ cs) < 2 ^ 63 → length cs ≤ 6
top_bit-length c cs size top small = elim (ℕ_discrete (length cs) 7) [
  | yes e ↦ absurd (omega (arith, ap (λ (n : ℕ). c * 256 ^ n) e))
  | no ne ↦ omega arith
]

sign_octet-decode_integer :
    (c : ℕ) (cs : Bytes)
    → IsBytes (c ∷ cs)
    → length cs ≤ 7
    → from_be (c ∷ cs) < 2 ^ 63
    → decode_integer (sign_octet (c ∷ cs)) ≡ ok (from_be (c ∷ cs) % 2 ^ 64)
unfolding sign_octet
sign_octet-decode_integer c cs h size small = elim (Bool-cases (bit_and c 0x80 == 0)) [
  | inl clear ↦ rw clear (decode_positive c cs h (ground (arith, and_0x80 c (h.0))) size)
  | inr top ↦
      let high : 128 ≤ c = ground (arith, and_0x80 c (h.0)) in
      let fits = top_bit-length c cs size high small in
      let same : from_be (0 ∷ c ∷ cs) ≡ from_be (c ∷ cs) = omega arith in
      rw top (
        decode_positive 0 (c ∷ cs) (omega arith, h) (omega arith) (omega arith)
        ∙ ap (λ (t : ℕ). ok (t % 2 ^ 64)) same)
]

-- The content of an `Unsigned` is that of an INTEGER: where the number is below 2 ^ 63, the decoder of
-- signed integers reads the same number.
pub decode_integer-encode_unsigned :
    (v : ℕ) → v < 2 ^ 63 → decode_integer (encode_unsigned v) ≡ ok v
unfolding encode_unsigned
decode_integer-encode_unsigned v h = elim (Bool-cases (v == 0)) [
  | inl z ↦ rw z (unfold decode_integer sign_extend fold_shl8 in ground arith)
  | inr z ↦
      let (c, cs, e, hc, size) = stripped in
      let same : from_be (c ∷ cs) ≡ v = sym (ap from_be e) ∙ value in
      rw (z, e)
        (sign_octet-decode_integer c cs hc (omega (arith, size, length-be_bytes 7 v))
            (omega (arith, same))
          ∙ ap ok {x = from_be (c ∷ cs) % 2 ^ 64} {y = v} (omega (arith, same)))
]
  where
    stripped :
        (c : ℕ) × (cs : Bytes) × (strip_zeros (be_bytes 8 v) ≡ c ∷ cs)
        × IsBytes (c ∷ cs)
        × (length cs ≤ length (be_bytes 7 v))
    stripped = strip_zeros-shape (v / 256 ^ 7 % 256) (be_bytes 7 v) (be_bytes-IsBytes 8 v)

    value : from_be (strip_zeros (be_bytes 8 v)) ≡ v
    value = strip_zeros-value (be_bytes 8 v) ∙ from_be-be_bytes 8 v ∙ omega arith
