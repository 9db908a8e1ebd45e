-- ===== src/Ber/Data/Shape.antt =====
-- What `encode` writes, as one TLV, and which values the wire format can carry.
use iec_61850_studio.Base.{
  ℕ, suc, ◌^◌, ◌≤◌, ◌<◌, max, [], ◌∷◌, ◌++◌, length, true, ◌≡◌, sym, ap, ◌∙◌, append-nil,
  append_assoc,
}
use iec_61850_studio.Base.Words.{Bytes, IsBytes}
use iec_61850_studio.Ber.Error.{Tag}
use iec_61850_studio.Ber.Primitives.{encode_bool, encode_integer, encode_unsigned}
use iec_61850_studio.Ber.Writer.{
  BerWriter, boolean, integer, unsigned, octet_string, visible_string,
  bit_string as write_bit_string,
}
use iec_61850_studio.Ber.Writer.Laws.{tlv_octets, primitive-append, tlv-append}
use iec_61850_studio.Ber.Std.{Std}
use iec_61850_studio.Ber.Data.Tags
use iec_61850_studio.Ber.Data.{
  MmsData, Items, bool, int, uint, float, bit_string, octets, visible, mms_string, utc, binary_time,
  structure, array, nil, cons, encode_float, encode, encode_items,
}

abbrev pub tag_of : MmsData → Tag
tag_of (bool v) = Tags.boolean
tag_of (int v) = Tags.integer
tag_of (uint v) = Tags.unsigned
tag_of (float v) = Tags.floating_point
tag_of (bit_string bs) = Tags.bit_string
tag_of (octets b) = Tags.octet_string
tag_of (visible t) = Tags.visible_string
tag_of (mms_string t) = Tags.mms_string
tag_of (utc u) = Tags.utc_time
tag_of (binary_time b) = Tags.binary_time
tag_of (structure items) = Tags.structure
tag_of (array items) = Tags.array

unfoldable mutual
  pub content_of : Std → MmsData → Bytes
  content_of s (bool v) = encode_bool v
  content_of s (int v) = encode_integer v
  content_of s (uint v) = encode_unsigned v
  content_of s (float v) = encode_float s v
  content_of s (bit_string bs) = bs.unused_bits ∷ bs.bytes
  content_of s (octets b) = b
  content_of s (visible t) = t
  content_of s (mms_string t) = t
  content_of s (utc u) = u.raw
  content_of s (binary_time b) = b
  content_of s (structure items) = items_octets s items
  content_of s (array items) = items_octets s items

  pub items_octets : Std → Items → Bytes
  items_octets s nil = []
  items_octets s (cons it items) = tlv_octets (tag_of it) (content_of s it) ++ items_octets s items

-- How many levels of `structure` and `array` a value has.
unfoldable mutual
  pub depth : MmsData → ℕ
  depth (structure items) = suc (depth_items items)
  depth (array items) = suc (depth_items items)
  depth _ = 0

  pub depth_items : Items → ℕ
  depth_items nil = 0
  depth_items (cons it items) = max (depth it) (depth_items items)

-- The values of the Rust type: integers and floats of 64 bits, valid UTF-8, at most seven unused
-- bits, eight octets of time. Every octet is a byte.
unfoldable mutual
  pub IsEncodable : Std → MmsData → Type 0
  IsEncodable s (bool v) = Unit {0}
  IsEncodable s (int v) = v < 2 ^ 64
  IsEncodable s (uint v) = v < 2 ^ 64
  IsEncodable s (float v) = v < 2 ^ 64
  IsEncodable s (bit_string bs) = (bs.unused_bits ≤ 7) × IsBytes bs.bytes
  IsEncodable s (octets b) = IsBytes b
  IsEncodable s (visible t) = (s.utf8 t ≡ true) × IsBytes t
  IsEncodable s (mms_string t) = (s.utf8 t ≡ true) × IsBytes t
  IsEncodable s (utc u) = (length u.raw ≡ 8) × IsBytes u.raw
  IsEncodable s (binary_time b) = IsBytes b
  IsEncodable s (structure items) = AreEncodable s items
  IsEncodable s (array items) = AreEncodable s items

  pub AreEncodable : Std → Items → Type 0
  AreEncodable s nil = Unit {0}
  AreEncodable s (cons it items) = IsEncodable s it × AreEncodable s items

mutual
  unfolding encode content_of boolean integer unsigned octet_string visible_string write_bit_string

  encode-appends :
      (s : Std) (d : MmsData) (w : BerWriter)
      → encode s d w ≡ w ++ tlv_octets (tag_of d) (content_of s d)
  encode-appends s (bool v) w = primitive-append w _ _
  encode-appends s (int v) w = primitive-append w _ _
  encode-appends s (uint v) w = primitive-append w _ _
  encode-appends s (float v) w = primitive-append w _ _
  encode-appends s (bit_string bs) w = primitive-append w _ _
  encode-appends s (octets b) w = primitive-append w _ _
  encode-appends s (visible t) w = primitive-append w _ _
  encode-appends s (mms_string t) w = primitive-append w _ _
  encode-appends s (utc u) w = primitive-append w _ _
  encode-appends s (binary_time b) w = primitive-append w _ _
  encode-appends s (structure items) w =
      tlv-append w _ _ (items_octets s items) (encode_items-appends s items)
  encode-appends s (array items) w =
      tlv-append w _ _ (items_octets s items) (encode_items-appends s items)

  encode_items-appends :
      (s : Std) (items : Items) (w : BerWriter) → encode_items s items w ≡ w ++ items_octets s items
  encode_items-appends s nil w = sym (append-nil w)
  encode_items-appends s (cons it items) w =
      encode_items-appends s items (encode s it w)
      ∙ ap (λ (t : BerWriter). t ++ items_octets s items) (encode-appends s it w)
      ∙ append_assoc w _ _

-- `encode` appends one TLV to the buffer, with the value's tag and content.
pub encode-append :
    (s : Std) (d : MmsData) (w : BerWriter)
    → encode s d w ≡ w ++ tlv_octets (tag_of d) (content_of s d)
encode-append s d w = encode-appends s d w

pub encode_items-append :
    (s : Std) (items : Items) (w : BerWriter) → encode_items s items w ≡ w ++ items_octets s items
encode_items-append s items w = encode_items-appends s items w
