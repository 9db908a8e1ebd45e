-- ===== src/Ber/Nested.antt =====
-- ber/writer.rs and ber/reader.rs at work on nested structures: a body that only appends, and a cursor that enters the
-- content of a TLV.
use iec_61850_studio.Ber.Tag
use iec_61850_studio.Ber.Tag.RoundTrip
use iec_61850_studio.Ber.Length.{encode_len}
use iec_61850_studio.Base.{
  ℕ, ◌^◌, ◌<◌, ◌≤◌, arith, length-append, List, [], ◌∷◌, ◌++◌, length, Bool, ◌≡◌, refl, sym, ap,
  ◌∙◌, subst, append_assoc, append-nil,
}
use iec_61850_studio.Base.Result.{ok}
use iec_61850_studio.Base.Words.{Bytes}
use iec_61850_studio.Ber.Error.{Tag}
use iec_61850_studio.Ber.Primitives.{
  encode_bool, encode_integer, encode_unsigned, encode_oid, BitString,
}
use iec_61850_studio.Ber.Reader.{BerReader, new, expect, read_tlv}
use iec_61850_studio.Ber.Writer.{
  BerWriter, primitive, tlv, raw, boolean, integer, unsigned, octet_string, visible_string, null,
  object_identifier, bit_string, bit_string, sequence, sequence_tag,
}
use iec_61850_studio.Ber.Writer.Laws.{tlv_octets, primitive-append, tlv-append}
use iec_61850_studio.Ber.Fields.{Stands, Stands-fits, expect_step, read_tlv_step}

-- The body of a writer that keeps what the buffer holds and puts `content` behind it.
abbrev pub Appends : (BerWriter → BerWriter) → Bytes → Type 0
Appends body content = (w : BerWriter) → body w ≡ w ++ content

pub Appends-nothing : Appends (λ w. w) []
Appends-nothing w = sym (append-nil w)

pub Appends-then :
    (f g : BerWriter → BerWriter) (a b : Bytes)
    → Appends f a
    → Appends g b
    → Appends (λ w. g (f w)) (a ++ b)
Appends-then f g a b hf hg w = hg (f w) ∙ ap (λ (t : Bytes). t ++ b) (hf w) ∙ append_assoc w a b

-- The last of several.
pub Appends-last : (f : BerWriter → BerWriter) (a : Bytes) → Appends f a → Appends f (a ++ [])
Appends-last f a hf w = hf w ∙ ap (λ (t : Bytes). w ++ t) (sym (append-nil a))

pub Appends-tlv :
    (tag : Tag) (body : BerWriter → BerWriter) (content : Bytes)
    → Appends body content
    → Appends (λ w. tlv w tag body) (tlv_octets tag content)
Appends-tlv tag body content h w = tlv-append w tag body content h

pub Appends-sequence :
    (body : BerWriter → BerWriter) (content : Bytes)
    → Appends body content
    → Appends (λ w. sequence w body) (tlv_octets sequence_tag content)
unfolding sequence
Appends-sequence body content h w = tlv-append w sequence_tag body content h

pub Appends-primitive :
    (tag : Tag) (content : Bytes) → Appends (λ w. primitive w tag content) (tlv_octets tag content)
Appends-primitive tag content w = primitive-append w tag content

pub Appends-integer :
    (tag : Tag) (v : ℕ) → Appends (λ w. integer w tag v) (tlv_octets tag (encode_integer v))
unfolding integer
Appends-integer tag v w = primitive-append w tag (encode_integer v)

pub Appends-unsigned :
    (tag : Tag) (v : ℕ) → Appends (λ w. unsigned w tag v) (tlv_octets tag (encode_unsigned v))
unfolding unsigned
Appends-unsigned tag v w = primitive-append w tag (encode_unsigned v)

pub Appends-boolean :
    (tag : Tag) (v : Bool) → Appends (λ w. boolean w tag v) (tlv_octets tag (encode_bool v))
unfolding boolean
Appends-boolean tag v w = primitive-append w tag (encode_bool v)

pub Appends-octets :
    (tag : Tag) (content : Bytes)
    → Appends (λ w. octet_string w tag content) (tlv_octets tag content)
unfolding octet_string
Appends-octets tag content w = primitive-append w tag content

pub Appends-visible :
    (tag : Tag) (text : Bytes) → Appends (λ w. visible_string w tag text) (tlv_octets tag text)
unfolding visible_string
Appends-visible tag text w = primitive-append w tag text

pub Appends-null : (tag : Tag) → Appends (λ w. null w tag) (tlv_octets tag [])
unfolding null
Appends-null tag w = primitive-append w tag []

pub Appends-oid :
    (tag : Tag) (a b : ℕ) (arcs : List ℕ)
    → Appends (λ w. object_identifier w tag a b arcs) (tlv_octets tag (encode_oid a b arcs))
unfolding object_identifier
Appends-oid tag a b arcs w = primitive-append w tag (encode_oid a b arcs)

pub Appends-bits :
    (tag : Tag) (bits : BitString)
    → Appends (λ w. bit_string w tag bits) (tlv_octets tag (bits.unused_bits ∷ bits.bytes))
unfolding bit_string
Appends-bits tag bits w = primitive-append w tag (bits.unused_bits ∷ bits.bytes)

pub Appends-raw : (bytes : Bytes) → Appends (λ w. raw w bytes) bytes
unfolding raw
Appends-raw bytes w = refl

-- The octets of each of a list.
abbrev pub each_octets : {A : Type 0} → (A → Bytes) → List A → Bytes
each_octets octets [] = []
each_octets octets (a ∷ items) = octets a ++ each_octets octets items

-- A loop that writes each of a list.
abbrev pub write_each : {A : Type 0} → (A → BerWriter → BerWriter) → List A → BerWriter → BerWriter
write_each write [] w = w
write_each write (a ∷ items) w = write_each write items (write a w)

pub Appends-each :
    {A : Type 0} (write : A → BerWriter → BerWriter) (octets : A → Bytes)
    → ((a : A) → Appends (write a) (octets a))
    → (items : List A) → Appends (write_each write items) (each_octets octets items)
Appends-each write octets h [] = Appends-nothing
Appends-each write octets h (a ∷ items) =
    Appends-then (write a) (write_each write items) (octets a) (each_octets octets items) (h a)
      (Appends-each write octets h items)

-- A field is read, and its content can be entered.
pub expect_into :
    (r : BerReader) (tag : Tag) (content rest : Bytes)
    → tag.number < 2 ^ 32
    → Stands r (tlv_octets tag content ++ rest)
    → (r' : BerReader) × (expect r tag ≡ ok (content, r'))
      × Stands r' rest
      × Stands (new content) content
expect_into r tag content rest small stands =
    let (r', e, stands') = expect_step r tag content rest small stands in
    (r', e, stands', ([], refl, Stands-fits r tag content rest stands))

pub read_tlv_into :
    (r : BerReader) (tag : Tag) (content rest : Bytes)
    → tag.number < 2 ^ 32
    → Stands r (tlv_octets tag content ++ rest)
    → (r' : BerReader) × (read_tlv r ≡ ok (record { tag = tag; content = content }, r'))
      × Stands r' rest
      × Stands (new content) content
read_tlv_into r tag content rest small stands =
    let (r', e, stands') = read_tlv_step r tag content rest small stands in
    (r', e, stands', ([], refl, Stands-fits r tag content rest stands))

-- Where nothing follows.
pub Stands-last :
    (r : BerReader) (tag : Tag) (content : Bytes)
    → Stands r (tlv_octets tag content)
    → Stands r (tlv_octets tag content ++ [])
Stands-last r tag content h = subst (Stands r) (sym (append-nil (tlv_octets tag content))) h

pub tlv_octets_some : (tag : Tag) (content : Bytes) → 1 ≤ length (tlv_octets tag content)
tlv_octets_some tag content = omega (
  arith,
  length-append (Tag.encode [] tag) (encode_len [] (length content) ++ content),
  RoundTrip.length-encode tag,
)
