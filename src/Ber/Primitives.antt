-- ===== src/Ber/Primitives.antt =====
-- ber/prim.rs: the contents of the primitive types. An `i64` is its bit pattern, a number below
-- 2 ^ 64; a text is its UTF-8 octets, and `from_utf8` is a parameter.
pub mod Integer
pub mod Unsigned
use iec_61850_studio.Base.{
  ℕ, zero, suc, ◌+◌, ◌-◌, ◌*◌, ◌/◌, ◌%◌, ◌^◌, bit_and, List, [], ◌∷◌, ◌++◌, Option, none, some,
  length, Bool, true, false, not, ◌&&◌, ◌||◌, ltb, ◌==◌, if◌then◌else◌,
}
use iec_61850_studio.Base.Result.{ok, err, ◌>>=◌}
use iec_61850_studio.Base.Words.{Bytes, be_bytes, fold_shl8}
use iec_61850_studio.Ber.Base128.{push_base128}
use iec_61850_studio.Ber.Error.{
  BerResult, bad_integer, length_overflow, bad_bool, bad_string, bad_bit_string,
}

pub record BitString : Type 0 where
  pub unused_bits : ℕ
  pub bytes : Bytes

-- `BitString::len_bits`
unfoldable pub len_bits : BitString → ℕ
len_bits s = length s.bytes * 8 - s.unused_bits

-- The octets of bits, the first one the highest: `acc` holds the octet begun, `weight` the value of the next bit.
unfoldable pub bits_octets : List Bool → ℕ → ℕ → Bytes
bits_octets [] weight acc = if weight == 0x80 then [] else acc ∷ []
bits_octets (b ∷ bits) weight acc =
    let acc' = if b then acc + weight else acc in
    let next =
      bits_octets bits (if weight == 1 then 0x80 else weight / 2)
        (if weight == 1 then 0 else acc') in
    if weight == 1 then acc' ∷ next else next

-- `BitString::from_bits`
unfoldable pub from_bits : List Bool → BitString
from_bits bits =
    let octets = bits_octets bits 0x80 0 in
    record { unused_bits = length octets * 8 - length bits; bytes = octets }

-- The loop `while bytes.len() > 1` of `encode_integer`, which drops a redundant first octet.
unfoldable pub strip_integer : Bytes → Bytes
strip_integer [] = []
strip_integer (first ∷ []) = first ∷ []
strip_integer (first ∷ second ∷ rest) =
    let shorter = strip_integer (second ∷ rest) in
    if first == 0 && bit_and second 0x80 == 0 || first == 0xff && not (bit_and second 0x80 == 0)
    then shorter
    else first ∷ second ∷ rest

unfoldable pub encode_integer : ℕ → Bytes
encode_integer v = strip_integer (be_bytes 8 v)

-- `(b as i8) as i64`
unfoldable pub sign_extend : ℕ → ℕ
sign_extend b = if ltb b 128 then b else b + (2 ^ 64 - 256)

unfoldable pub decode_integer : Bytes → BerResult ℕ
decode_integer [] = err bad_integer
decode_integer (first ∷ rest) =
    if ltb 8 (length (first ∷ rest))
    then err bad_integer
    else ok (fold_shl8 (sign_extend first) rest)

-- The loop `while bytes.len() > 1 && bytes[0] == 0` of `encode_unsigned`.
unfoldable pub strip_zeros : Bytes → Bytes
strip_zeros [] = []
strip_zeros (first ∷ []) = first ∷ []
strip_zeros (first ∷ second ∷ rest) =
    let shorter = strip_zeros (second ∷ rest) in
    if first == 0 then shorter else first ∷ second ∷ rest

-- `if bytes[0] & 0x80 != 0 { bytes.insert(0, 0) }`
unfoldable pub sign_octet : Bytes → Bytes
sign_octet [] = []
sign_octet (first ∷ rest) = if bit_and first 0x80 == 0 then first ∷ rest else 0 ∷ first ∷ rest

unfoldable pub encode_unsigned : ℕ → Bytes
encode_unsigned v = if v == 0 then 0 ∷ [] else sign_octet (strip_zeros (be_bytes 8 v))

-- The slice that is left without a leading zero octet.
unfoldable pub trim_sign : Bytes → Bytes
trim_sign [] = []
trim_sign (first ∷ []) = first ∷ []
trim_sign (first ∷ second ∷ rest) = if first == 0 then second ∷ rest else first ∷ second ∷ rest

unfoldable pub decode_unsigned : Bytes → BerResult ℕ
decode_unsigned [] = err bad_integer
decode_unsigned (first ∷ rest) =
    let trimmed = trim_sign (first ∷ rest) in
    if ltb 8 (length trimmed) then err length_overflow else ok (fold_shl8 0 trimmed)

unfoldable pub encode_bool : Bool → Bytes
encode_bool v = (if v then 0xff else 0x00) ∷ []

unfoldable pub decode_bool : Bytes → BerResult Bool
decode_bool (b ∷ []) = ok (not (b == 0))
decode_bool _ = err bad_bool

-- `std::str::from_utf8(content)`, which keeps the octets that it accepts.
unfoldable pub decode_visible_string : (Bytes → Bool) → Bytes → BerResult Bytes
decode_visible_string utf8 content = if utf8 content then ok content else err bad_string

-- The loop of `encode_oid` over the arcs behind the second.
unfoldable pub push_arcs : Bytes → List ℕ → Bytes
push_arcs out [] = out
push_arcs out (arc ∷ arcs) = push_arcs (push_base128 out arc) arcs

-- `encode_oid` of at least two arcs, which it asserts.
unfoldable pub encode_oid : ℕ → ℕ → List ℕ → Bytes
encode_oid a b arcs = push_arcs (push_base128 [] ((a * 40 + b) % 2 ^ 32)) arcs
