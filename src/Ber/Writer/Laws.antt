-- ===== src/Ber/Writer/Laws.antt =====
-- Every writer appends one TLV: the identifier, the length of the content, the content.
use iec_61850_studio.Base.{
  ◌+◌, ◌-◌, ◌^◌, ◌≤◌, ◌<◌, [], ◌++◌, length, ◌≡◌, ap, ◌∙◌, arith, length-append, append_assoc,
  take_front, drop_front, All-append,
}
use iec_61850_studio.Base.Words.{Bytes, IsByte, IsBytes}
use iec_61850_studio.Ber.Error.{Tag}
use iec_61850_studio.Ber.Tag
use iec_61850_studio.Ber.Tag.RoundTrip
use iec_61850_studio.Ber.Tag.Bounds
use iec_61850_studio.Ber.Length.{encode_len, len_encoded_size}
use iec_61850_studio.Ber.Length.RoundTrip.{encode_len-append, length-encode_len, encode_len-IsBytes}
use iec_61850_studio.Ber.Writer.{BerWriter, primitive, tlv}

abbrev pub tlv_octets : Tag → Bytes → Bytes
tlv_octets tag content = Tag.encode [] tag ++ (encode_len [] (length content) ++ content)

-- `primitive` keeps the buffer and appends the identifier, the length and the content.
pub primitive-append :
    (w : BerWriter) (tag : Tag) (content : Bytes)
    → primitive w tag content ≡ w ++ tlv_octets tag content
unfolding primitive
primitive-append w tag content =
    rw (RoundTrip.encode-append w tag, encode_len-append (w ++ Tag.encode [] tag) (length content))
      (append_assoc (w ++ Tag.encode [] tag) _ content ∙ append_assoc w _ _)

-- A body that appends `content`, whatever the buffer holds, makes `tlv` append the same octets as
-- `primitive` does: the length is that of the content, put in front of it.
pub tlv-append :
    (w : BerWriter) (tag : Tag) (body : BerWriter → BerWriter) (content : Bytes)
    → ((b : BerWriter) → body b ≡ b ++ content)
    → tlv w tag body ≡ w ++ tlv_octets tag content
unfolding tlv
tlv-append w tag body content appends =
    let opened = Tag.encode w tag in
    let e : length (opened ++ content) - length opened ≡ length content =
      omega (arith, length-append opened content) in
    rw (appends opened, take_front opened content, drop_front opened content, e)
      (ap (λ (t : Bytes). t ++ (encode_len [] (length content) ++ content))
          (RoundTrip.encode-append w tag)
        ∙ append_assoc w _ _)

pub length-tlv_octets :
    (tag : Tag) (content : Bytes)
    → length content < 2 ^ 64
    → (length (tlv_octets tag content)
        ≡ length (Tag.encode [] tag) + len_encoded_size (length content) + length content)
      × (2 + length content ≤ length (tlv_octets tag content))
      × (length (tlv_octets tag content) ≤ 15 + length content)
length-tlv_octets tag content h = omega (
  arith,
  length-append (Tag.encode [] tag) (encode_len [] (length content) ++ content),
  length-append (encode_len [] (length content)) content,
  length-encode_len [] (length content) h,
  RoundTrip.length-encode tag,
)

pub tlv_octets-IsBytes :
    (tag : Tag) (content : Bytes) → IsBytes content → IsBytes (tlv_octets tag content)
tlv_octets-IsBytes tag content h =
    All-append IsByte (Tag.encode [] tag) _ (Bounds.encode-IsBytes tag) (
      All-append IsByte (encode_len [] (length content)) content
        (encode_len-IsBytes (length content)) h)

pub content-le-tlv_octets :
    (tag : Tag) (content : Bytes) → length content ≤ length (tlv_octets tag content)
content-le-tlv_octets tag content = omega (
  arith,
  length-append (Tag.encode [] tag) (encode_len [] (length content) ++ content),
  length-append (encode_len [] (length content)) content,
)
