-- ===== src/Ber/Primitives/Integer.antt =====
-- INTEGER: two's complement in the fewest octets.
use iec_61850_studio.Base.{
  ℕ, suc, ◌+◌, ◌*◌, ◌/◌, ◌%◌, ◌^◌, ◌≤◌, ◌<◌, [], ◌∷◌, length, ◌≡◌, refl, ◌∙◌, ap, arith, ◌⊎◌,
}
use iec_61850_studio.Base.Result.{ok}
use iec_61850_studio.Base.Bits.{and_0x80}
use iec_61850_studio.Base.Words.{
  Bytes, IsBytes, be_bytes, from_be-be_bytes, length-be_bytes, be_bytes-IsBytes, shl8_or,
  shl8_or_64, fold_shl8, fold_shl8_lem,
}
use iec_61850_studio.Ber.Primitives.{strip_integer, encode_integer, sign_extend, decode_integer}

-- The 64-bit pattern that a content stands for.
abbrev signed_value : Bytes → ℕ
signed_value [] = 0
signed_value (first ∷ rest) = fold_shl8 (sign_extend first) rest

sign_step :
    (first second : ℕ)
    → second < 256
    → (first ≡ 0) × (second < 128) ⊎ (first ≡ 255) × (128 ≤ second)
    → shl8_or 64 (sign_extend first) second ≡ sign_extend second
unfolding sign_extend
sign_step first second h c = ground (arith, shl8_or_64 (sign_extend first) second)

strip_integer-value : (bs : Bytes) → IsBytes bs → signed_value (strip_integer bs) ≡ signed_value bs
unfolding strip_integer fold_shl8
strip_integer-value [] h = refl
strip_integer-value (first ∷ []) h = refl
strip_integer-value (first ∷ second ∷ rest) (hf, (hs, hr)) =
    ground
      (arith, and_0x80 second, sign_step first second, strip_integer-value (second ∷ rest) (hs, hr))

-- X.690, 8.3.2: the first nine bits are neither all zero nor all one.
abbrev pub IsShortest : Bytes → Type 0
IsShortest [] = ⊥
IsShortest (_ ∷ []) = Unit {0}
IsShortest (first ∷ second ∷ _) =
    ¬ ((first ≡ 0) × (second < 128)) × ¬ ((first ≡ 255) × (128 ≤ second))

strip_integer-shape :
    (first : ℕ) (rest : Bytes)
    → IsBytes (first ∷ rest)
    → IsShortest (strip_integer (first ∷ rest))
      × IsBytes (strip_integer (first ∷ rest))
      × (length (strip_integer (first ∷ rest)) ≤ suc (length rest))
unfolding strip_integer
strip_integer-shape first [] h = (tt, h, omega arith)
strip_integer-shape first (second ∷ rest) (hf, (hs, hr)) =
    ground (arith, and_0x80 second, strip_integer-shape second rest (hs, hr))

fold_be_bytes :
    (first v : ℕ)
    → first < 2 ^ 64
    → fold_shl8 first (be_bytes 7 v) ≡ (first * 256 ^ 7 + v % 256 ^ 7) % 2 ^ 64
fold_be_bytes first v h =
    fold_shl8_lem first (be_bytes 7 v) h (be_bytes-IsBytes 7 v)
    ∙ ap (λ (t : ℕ). (first * 256 ^ 7 + t) % 2 ^ 64) (from_be-be_bytes 7 v)

signed_value-be_bytes : (v : ℕ) → v < 2 ^ 64 → signed_value (be_bytes 8 v) ≡ v
unfolding sign_extend
signed_value-be_bytes v h = ground (arith, fold_be_bytes (sign_extend (v / 256 ^ 7 % 256)) v)

decode_content :
    (bs : Bytes) → 1 ≤ length bs → length bs ≤ 8 → decode_integer bs ≡ ok (signed_value bs)
unfolding decode_integer
decode_content [] lo hi = absurd (omega arith)
decode_content (first ∷ rest) lo hi = ground arith

-- The content of an INTEGER is a string of one to eight bytes that `IsShortest`: it is not empty, and
-- of two octets or more the first nine bits are not all equal.
pub encode_integer_shape :
    (v : ℕ)
    → IsShortest (encode_integer v) × IsBytes (encode_integer v) × (length (encode_integer v) ≤ 8)
unfolding encode_integer
encode_integer_shape v =
    let (short, octets, size) =
      strip_integer-shape (v / 256 ^ 7 % 256) (be_bytes 7 v) (be_bytes-IsBytes 8 v) in
    (short, octets, omega (arith, size, length-be_bytes 7 v))

IsShortest-ne-nil : (bs : Bytes) → IsShortest bs → 1 ≤ length bs
IsShortest-ne-nil [] h = absurd h
IsShortest-ne-nil (b ∷ bs) h = omega arith

-- The content of an INTEGER decodes to the integer that was encoded, for every `i64`.
pub decode_integer-encode_integer : (v : ℕ) → v < 2 ^ 64 → decode_integer (encode_integer v) ≡ ok v
decode_integer-encode_integer v h =
    let (short, octets, size) = encode_integer_shape v in
    decode_content (encode_integer v) (IsShortest-ne-nil _ short) size
    ∙ ap ok (value ∙ signed_value-be_bytes v h)
  where
    value : signed_value (encode_integer v) ≡ signed_value (be_bytes 8 v)
    value = unfold encode_integer in strip_integer-value (be_bytes 8 v) (be_bytes-IsBytes 8 v)
