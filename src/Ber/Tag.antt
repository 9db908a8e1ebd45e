-- ===== src/Ber/Tag.antt =====
-- ber/tag.rs: identifiers, with the number in the first octet or in base 128.
pub mod RoundTrip
pub mod Bounds
use iec_61850_studio.Base.{
  ℕ, ◌+◌, ◌*◌, ◌/◌, ◌%◌, ◌^◌, bit_and, bit_or, [], ◌∷◌, ◌++◌, Option, none, some, Bool, true, false,
  not, ltb, ◌==◌, if◌then◌else◌, ◌&&◌,
}
use iec_61850_studio.Base.Result.{ok, err, ◌>>=◌}
use iec_61850_studio.Base.Words.{Bytes}
use iec_61850_studio.Ber.Error.{
  TagClass, universal, application, context, private, Tag, BerResult, unexpected_eof,
  length_overflow,
}
use iec_61850_studio.Ber.Base128.{base128_stack, base128_octets, push_base128, checked_shl_u32}

unfoldable pub class_bits : TagClass → ℕ
class_bits universal = 0
class_bits application = 1
class_bits context = 2
class_bits private = 3

unfoldable pub class_from_bits : ℕ → TagClass
class_from_bits b =
    let low = bit_and b 3 in
    if low == 0
    then universal
    else if low == 1
    then application
    else if low == 2
    then context
    else private

abbrev pub new : TagClass → Bool → ℕ → Tag
new c constructed n = record { class = c; constructed = constructed; number = n }

-- The derived `PartialEq`.
unfoldable pub tag_eq : Tag → Tag → Bool
unfolding class_bits
tag_eq a b =
    class_bits a.class == class_bits b.class
    && (if a.constructed then b.constructed else not b.constructed)
    && a.number == b.number

pub first_octet : Tag → ℕ
unfolding class_bits
first_octet t = bit_or (class_bits t.class * 2 ^ 6 % 256) (if t.constructed then 0x20 else 0)

unfoldable pub encode : Bytes → Tag → Bytes
unfolding first_octet push_base128
encode out t =
    let first = first_octet t in
    if ltb t.number 0x1f
    then out ++ (bit_or first (t.number % 256) ∷ [])
    else push_base128 (out ++ (bit_or first 0x1f ∷ [])) t.number

-- The loop of the multi-byte form; the list is what the index `i` has not reached.
pub decode_number : Bytes → ℕ → ℕ → BerResult (ℕ × ℕ)
decode_number [] number i = err unexpected_eof
decode_number (b ∷ rest) number i = elim (checked_shl_u32 number 7) [
  | none ↦ err length_overflow
  | some shifted ↦
      let number' = bit_or shifted (bit_and b 0x7f) in
      let more = decode_number rest number' (i + 1) in
      if bit_and b 0x80 == 0 then ok (number', i + 1) else more
]

-- The identifier, and how many octets it took.
unfoldable pub decode : Bytes → BerResult (Tag × ℕ)
unfolding class_from_bits decode_number
decode [] = err unexpected_eof
decode (first ∷ rest) =
    let class = class_from_bits (first / 2 ^ 6) in
    let constructed = not (bit_and first 0x20 == 0) in
    let low = bit_and first 0x1f in
    if not (low == 0x1f)
    then ok (new class constructed low, 1)
    else do (number, i) ← decode_number rest 0 1; ok (new class constructed number, i)
