-- ===== src/Ber/Tag/RoundTrip.antt =====
-- What `Tag::encode` writes, `Tag::decode` reads.
use native.Mathlib.Nat.{pow-suc}
use mathlib.Core.Path.{ap₂}
use iec_61850_studio.Base.{
  ℕ, ◌+◌, ◌*◌, ◌/◌, ◌%◌, ◌^◌, ◌≤◌, ◌<◌, bit_and, bit_or, [], ◌∷◌, ◌++◌, All, length, ◌==◌,
  if◌then◌else◌, ◌≡◌, ◌↔◌, refl, sym, ap, ◌∙◌, arith, length-append, append_assoc, Bool, true,
  false, not, dec_lt, subst, ltb-false,
}
use iec_61850_studio.Base.Result.{ok}
use iec_61850_studio.Base.Bits.{bit_or_field, and_0x7f, and_0x80, and_0x20, and_0x1f, or_0x80}
use iec_61850_studio.Base.Words.{Bytes, mul_mod_add}
use iec_61850_studio.Ber.Error.{TagClass, universal, application, context, private, Tag}
use iec_61850_studio.Ber.Base128.{base128_stack, base128_octets, push_base128}
use iec_61850_studio.Ber.Base128.Value.{
  from_groups, IsGroup, base128_stack-IsGroup, from_groups-base128_stack, length-base128_stack,
  shl7_or,
}
use iec_61850_studio.Ber.Tag.{
  class_bits, class_from_bits, new, tag_eq, first_octet, encode, decode_number, decode,
}

pub tag_eq_iff : (a b : Tag) → (tag_eq a b ≡ true) ↔ (a ≡ b)
unfolding tag_eq class_bits
tag_eq_iff a b = ground arith

-- One octet with the continuation bit, and the last one.
read_more :
    (g : ℕ) (rest : Bytes) (number i : ℕ)
    → g < 128
    → decode_number (bit_or g 0x80 ∷ rest) number i
      ≡ decode_number rest ((number * 128 + g) % 2 ^ 32) (i + 1)
unfolding decode_number
read_more g rest number i h =
    ground (arith, or_0x80 g, and_0x7f (g + 128), and_0x80 (g + 128), shl7_or number g)

read_last :
    (g : ℕ) (rest : Bytes) (number i : ℕ)
    → g < 128
    → decode_number (g ∷ rest) number i ≡ ok ((number * 128 + g) % 2 ^ 32, i + 1)
unfolding decode_number
read_last g rest number i h = ground (arith, and_0x7f g, and_0x80 g, shl7_or number g)

-- The octets of all groups but the lowest; the number wraps to 32 bits.
read_groups :
    (gs rest : Bytes) (j number i : ℕ)
    → All IsGroup gs
    → 0 < j
    → number < 2 ^ 32
    → decode_number (base128_octets j gs ++ rest) number i
      ≡ decode_number rest ((number * 128 ^ length gs + from_groups gs) % 2 ^ 32) (i + length gs)
unfolding base128_octets
read_groups [] rest j number i h hj hn =
    ap₂ (decode_number rest) {x = number} {y = (number * 1 + 0) % 2 ^ 32} (omega arith)
      (omega arith)
read_groups (g ∷ gs) rest j number i (hg, hgs) hj hn =
    let inner : (j == 0) ≡ false = ground arith in
    rw
      (
        inner,
        append_assoc,
        read_groups gs (bit_or g 0x80 ∷ rest) (j + 1) number i hgs (omega arith) hn,
      )
      (read_more g rest _ (i + length gs) hg
        ∙ ap₂ (decode_number rest)
            (mul_mod_add (2 ^ 32) (number * 128 ^ length gs + from_groups gs) 128 g
              ∙ ap (λ (t : ℕ). t % 2 ^ 32)
                  (omega (arith, ap (λ (t : ℕ). number * t) (pow-suc 128 (length gs)))))
            (omega arith))

-- All groups: the number that the octets stand for, to 32 bits, and one octet for each group.
pub read_number :
    (g : ℕ) (gs rest : Bytes) (i : ℕ)
    → All IsGroup (g ∷ gs)
    → decode_number (base128_octets 0 (g ∷ gs) ++ rest) 0 i
      ≡ ok (from_groups (g ∷ gs) % 2 ^ 32, i + length (g ∷ gs))
unfolding base128_octets
read_number g gs rest i (hg, hgs) =
    rw (append_assoc, read_groups gs (g ∷ rest) 1 0 i hgs (omega arith) (omega arith))
      (read_last g rest _ (i + length gs) hg
        ∙ ap₂ (λ (n k : ℕ). ok (n, k))
            (mul_mod_add (2 ^ 32) (0 * 128 ^ length gs + from_groups gs) 128 g
              ∙ ap (λ (t : ℕ). t % 2 ^ 32) (omega arith))
            (omega arith))

unfoldable pub class_code : TagClass → Bool → ℕ
unfolding class_bits
class_code c constructed = class_bits c * 2 + (if constructed then 1 else 0)

pub first_octet_lem :
    (t : Tag) (low : ℕ)
    → low < 32
    → bit_or (first_octet t) low ≡ class_code t.class t.constructed * 32 + low
unfolding first_octet class_code class_bits
first_octet_lem t low h = ground (
  arith,
  bit_or_field 6 (class_bits t.class) (if t.constructed then 0x20 else 0),
  bit_or_field 5 (class_code t.class t.constructed) low,
)

class_from_bits_lem : (c : TagClass) → class_from_bits (class_bits c) ≡ c
unfolding class_from_bits class_bits
class_from_bits_lem universal = refl
class_from_bits_lem application = refl
class_from_bits_lem context = refl
class_from_bits_lem private = refl

-- What `decode` takes apart of a first octet.
pub record Header (t : Tag) (low first : ℕ) : Type 0 where
  class_is : class_from_bits (first / 2 ^ 6) ≡ t.class
  constructed_is : not (bit_and first 0x20 == 0) ≡ t.constructed
  low_is : bit_and first 0x1f ≡ low

pub class_code-lt : (c : TagClass) (constructed : Bool) → class_bits c < 4
unfolding class_bits
class_code-lt universal _ = omega arith
class_code-lt application _ = omega arith
class_code-lt context _ = omega arith
class_code-lt private _ = omega arith

pub header : (t : Tag) (low : ℕ) → low < 32 → Header t low (bit_or (first_octet t) low)
unfolding class_code
header t low h = rw (first_octet_lem t low h) (record {
  class_is =
      subst (λ (k : ℕ). class_from_bits k ≡ t.class) {x = class_bits t.class} {y = first / 2 ^ 6}
        (ground arith) (class_from_bits_lem t.class);
  constructed_is = ground (arith, and_0x20 first, class_code-lt t.class t.constructed);
  low_is = and_0x1f first ∙ omega arith;
})
  where
    first : ℕ
    first = class_code t.class t.constructed * 32 + low

decode_short :
    (t : Tag) (rest : Bytes)
    → t.number < 31
    → decode (bit_or (first_octet t) (t.number % 256) ∷ rest) ≡ ok (t, 1)
unfolding decode
decode_short t rest h =
    let e : t.number % 256 ≡ t.number = omega arith in
    let hd = header t t.number (omega arith) in
    rw (e, hd.class_is, hd.constructed_is, hd.low_is) (ground arith)

pub decode_long :
    (t : Tag) (rest : Bytes) (number n : ℕ)
    → decode_number rest 0 1 ≡ ok (number, n)
    → decode (bit_or (first_octet t) 0x1f ∷ rest) ≡ ok (new t.class t.constructed number, n)
unfolding decode
decode_long t rest number n e =
    let hd = header t 31 (omega arith) in rw (hd.class_is, hd.constructed_is, hd.low_is, e) refl

pub encode_short :
    (out : Bytes) (t : Tag)
    → t.number < 31
    → encode out t ≡ out ++ (bit_or (first_octet t) (t.number % 256) ∷ [])
unfolding encode
encode_short out t h = ground arith

pub encode_long :
    (out : Bytes) (t : Tag)
    → 31 ≤ t.number
    → encode out t
      ≡ out ++ (bit_or (first_octet t) 0x1f ∷ base128_octets 0 (base128_stack 5 t.number))
unfolding encode push_base128
encode_long out t h = rw (ltb-false t.number 31 h, append_assoc)

length-base128_octets : (i : ℕ) (gs : Bytes) → length (base128_octets i gs) ≡ length gs
unfolding base128_octets
length-base128_octets i [] = refl
length-base128_octets i (g ∷ gs) =
    length-append (base128_octets (i + 1) gs) _ ∙ omega (arith, length-base128_octets (i + 1) gs)

read_stack :
    (v i : ℕ) (rest : Bytes)
    → v < 2 ^ 32
    → decode_number (base128_octets 0 (base128_stack 5 v) ++ rest) 0 i
      ≡ ok (v, i + length (base128_stack 5 v))
unfolding base128_stack
read_stack v i rest h =
    read_number _ _ rest i (base128_stack-IsGroup 5 v)
    ∙ ap (λ (k : ℕ). ok (k, i + length (base128_stack 5 v)))
        {x = from_groups (base128_stack 5 v) % 2 ^ 32} {y = v}
        (omega (arith, from_groups-base128_stack 5 v (omega arith)))

pub encode-append : (out : Bytes) (t : Tag) → encode out t ≡ out ++ encode [] t
encode-append out t = elim (dec_lt t.number 31) [
  | yes h ↦ encode_short out t h ∙ ap (λ (s : Bytes). out ++ s) (sym (encode_short [] t h))
  | no h ↦
      encode_long out t (omega arith)
      ∙ ap (λ (s : Bytes). out ++ s) (sym (encode_long [] t (omega arith)))
]

pub length-encode : (t : Tag) → (1 ≤ length (encode [] t)) × (length (encode [] t) ≤ 6)
length-encode t = elim (dec_lt t.number 31) [
  | yes h ↦ rw (encode_short [] t h) (omega arith)
  | no h ↦ rw (encode_long [] t (omega arith)) (
      omega (
        arith,
        length-base128_octets 0 (base128_stack 5 t.number),
        length-base128_stack 5 t.number,
      ))
]

-- `Tag::decode` reads back the identifier that `Tag::encode` wrote, for every number of 32 bits and
-- whatever follows, and takes exactly the octets that were written.
pub decode-encode :
    (t : Tag) (rest : Bytes)
    → t.number < 2 ^ 32
    → decode (encode [] t ++ rest) ≡ ok (t, length (encode [] t))
decode-encode t rest h = elim (dec_lt t.number 31) [
  | yes short ↦ rw (encode_short [] t short) (decode_short t rest short)
  | no long ↦ rw (encode_long [] t (omega arith)) (
      decode_long t (base128_octets 0 (base128_stack 5 t.number) ++ rest) t.number _
        (read_stack t.number 1 rest h)
      ∙ ap (λ (k : ℕ). ok (t, k))
          (omega (arith, length-base128_octets 0 (base128_stack 5 t.number))))
]
