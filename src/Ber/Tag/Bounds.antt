-- ===== src/Ber/Tag/Bounds.antt =====
-- `Tag::decode` on any input, and the octets that `Tag::encode` writes.
use iec_61850_studio.Base.{
  ℕ, ◌+◌, ◌*◌, ◌%◌, ◌^◌, ◌≤◌, ◌<◌, bit_and, bit_or, [], ◌∷◌, ◌++◌, All, All-append, length, ◌≡◌,
  arith, dec_lt,
}
use iec_61850_studio.Base.Result.{ok, err}
use iec_61850_studio.Base.Bits.{and_0x7f, and_0x1f, or_0x80}
use iec_61850_studio.Base.Words.{Bytes, IsByte, IsBytes}
use iec_61850_studio.Ber.Error.{BerError, unexpected_eof, Tag}
use iec_61850_studio.Ber.Base128.{base128_octets}
use iec_61850_studio.Ber.Base128.Value.{from_groups, IsGroup, base128_stack-IsGroup, shl7_or}
use iec_61850_studio.Ber.Tag.{new, first_octet, encode, decode_number, decode}
use iec_61850_studio.Ber.Tag.RoundTrip.{
  decode_long, read_number, encode_short, encode_long, first_octet_lem, class_code, class_code-lt,
}

decode_number_bounds :
    (src : Bytes) (number i v n : ℕ)
    → decode_number src number i ≡ ok (v, n)
    → IsBytes src
    → (v < 2 ^ 32) × (i + 1 ≤ n) × (n ≤ i + length src)
unfolding decode_number
decode_number_bounds [] number i v n e h = cc
decode_number_bounds (b ∷ bs) number i v n e h = ground (
  arith,
  and_0x7f b,
  shl7_or number (b % 128),
  decode_number_bounds bs ((number * 128 + b % 128) % 2 ^ 32) (i + 1) v n,
)

-- An identifier that is read has a number of 32 bits, and was read from octets of the input.
pub decode_bounds :
    (src : Bytes) (t : Tag) (n : ℕ)
    → decode src ≡ ok (t, n)
    → IsBytes src
    → (t.number < 2 ^ 32) × (1 ≤ n) × (n ≤ length src)
unfolding decode
decode_bounds [] t n e h = cc
decode_bounds (first ∷ rest) t n e h =
    ground (arith, and_0x1f first, decode_number_bounds rest 0 1 t.number n)

decode_number-eq-err :
    (src : Bytes) (number i : ℕ) (x : BerError)
    → decode_number src number i ≡ err x
    → x ≡ unexpected_eof
unfolding decode_number
decode_number-eq-err [] number i x e = cc
decode_number-eq-err (b ∷ bs) number i x e =
    ground
      (arith, decode_number-eq-err bs (bit_or (number * 2 ^ 7 % 2 ^ 32) (bit_and b 0x7f)) (i + 1) x)

-- The only error of `Tag::decode` is the end of the input: a number that does not fit 32 bits is
-- never refused with `LengthOverflow`, since `checked_shl` looks at the shift alone.
pub decode-eq-err : (src : Bytes) (x : BerError) → decode src ≡ err x → x ≡ unexpected_eof
unfolding decode
decode-eq-err [] x e = cc
decode-eq-err (first ∷ rest) x e = ground (arith, decode_number-eq-err rest 0 1 x)

-- Groups of seven bits, the lowest first, are read as the number that they stand for modulo
-- 2 ^ 32, so two identifiers that differ by a multiple of 2 ^ 32 are read alike.
pub decode_wraps :
    (t : Tag) (g : ℕ) (gs rest : Bytes)
    → All IsGroup (g ∷ gs)
    → decode (bit_or (first_octet t) 0x1f ∷ (base128_octets 0 (g ∷ gs) ++ rest))
      ≡ ok (new t.class t.constructed (from_groups (g ∷ gs) % 2 ^ 32), 1 + length (g ∷ gs))
decode_wraps t g gs rest h = decode_long t _ _ _ (read_number g gs rest 1 h)

base128_octets-IsBytes : (i : ℕ) (gs : Bytes) → All IsGroup gs → IsBytes (base128_octets i gs)
unfolding base128_octets
base128_octets-IsBytes i [] h = tt
base128_octets-IsBytes i (g ∷ gs) (hg, hgs) =
    All-append IsByte (base128_octets (i + 1) gs) _ (base128_octets-IsBytes (i + 1) gs hgs)
      (ground (arith, or_0x80 g), tt)

first_octet-IsByte : (t : Tag) (low : ℕ) → low < 32 → IsByte (bit_or (first_octet t) low)
unfolding class_code
first_octet-IsByte t low h =
    rw (first_octet_lem t low h) (ground (arith, class_code-lt t.class t.constructed))

pub encode-IsBytes : (t : Tag) → IsBytes (encode [] t)
encode-IsBytes t = elim (dec_lt t.number 31) [
  | yes h ↦ rw (encode_short [] t h) (first_octet-IsByte t (t.number % 256) (omega arith), tt)
  | no h ↦ rw (encode_long [] t (omega arith)) (
    first_octet-IsByte t 31 (omega arith),
    base128_octets-IsBytes 0 _ (base128_stack-IsGroup 5 t.number),
  )
]
