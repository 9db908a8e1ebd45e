-- ===== src/Ber/Writer.antt =====
-- ber/writer.rs: a buffer that grows at its end, and `tlv`, which puts the length of what a body
-- wrote in front of it.
pub mod Laws
use iec_61850_studio.Base.{
  ℕ, ◌+◌, ◌-◌, ◌++◌, ◌∷◌, List, [], length, take, drop, Bool, Option, none, some,
}
use iec_61850_studio.Base.Words.{Bytes}
use iec_61850_studio.Ber.Error.{Tag, universal}
use iec_61850_studio.Ber.Tag
use iec_61850_studio.Ber.Length.{encode_len}
use iec_61850_studio.Ber.Primitives.{
  BitString, encode_bool, encode_integer, encode_unsigned, encode_oid,
}

-- `BerWriter { buf }`
abbrev pub BerWriter : Type 0
BerWriter = Bytes

unfoldable pub primitive : BerWriter → Tag → Bytes → BerWriter
primitive w tag content = encode_len (Tag.encode w tag) (length content) ++ content

-- The body is a function on the buffer; `splice` inserts the length at `content_start`.
unfoldable pub tlv : BerWriter → Tag → (BerWriter → BerWriter) → BerWriter
tlv w tag body =
    let opened = Tag.encode w tag in
    let content_start = length opened in
    let written = body opened in
    let len_bytes = encode_len [] (length written - content_start) in
    take content_start written ++ (len_bytes ++ drop content_start written)

unfoldable pub raw : BerWriter → Bytes → BerWriter
raw w bytes = w ++ bytes

unfoldable pub boolean : BerWriter → Tag → Bool → BerWriter
boolean w tag v = primitive w tag (encode_bool v)

unfoldable pub integer : BerWriter → Tag → ℕ → BerWriter
integer w tag v = primitive w tag (encode_integer v)

unfoldable pub unsigned : BerWriter → Tag → ℕ → BerWriter
unsigned w tag v = primitive w tag (encode_unsigned v)

unfoldable pub octet_string : BerWriter → Tag → Bytes → BerWriter
octet_string w tag bytes = primitive w tag bytes

-- `if let Some(bytes) = ... { w.octet_string(tag, bytes) }`
abbrev pub octet_string_if : BerWriter → Tag → Option Bytes → BerWriter
octet_string_if w tag none = w
octet_string_if w tag (some bytes) = octet_string w tag bytes

unfoldable pub visible_string : BerWriter → Tag → Bytes → BerWriter
visible_string w tag s = primitive w tag s

unfoldable pub bit_string : BerWriter → Tag → BitString → BerWriter
bit_string w tag bits = primitive w tag (bits.unused_bits ∷ bits.bytes)

-- `universal::SEQUENCE`
abbrev pub sequence_tag : Tag
sequence_tag = Tag.new universal (Bool.true) 0x10

unfoldable pub sequence : BerWriter → (BerWriter → BerWriter) → BerWriter
sequence w body = tlv w sequence_tag body

unfoldable pub null : BerWriter → Tag → BerWriter
null w tag = primitive w tag []

unfoldable pub object_identifier : BerWriter → Tag → ℕ → ℕ → List ℕ → BerWriter
object_identifier w tag a b arcs = primitive w tag (encode_oid a b arcs)
