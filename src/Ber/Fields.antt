-- ===== src/Ber/Fields.antt =====
-- ber/reader.rs and ber/writer.rs at work on a sequence of fields: what the writers of a structure wrote,
-- its readers read, one after the other, with optional fields left out.
use iec_61850_studio.Base.{
  ℕ, zero, suc, ◌^◌, ◌≤◌, ◌<◌, ◌+◌, List, [], ◌∷◌, ◌++◌, length, drop, true, false, ◌≡◌, refl, sym,
  ap, ◌∙◌, subst, arith, append-nil, append_assoc, length-append, Option, none, some, ◌⊎◌, inl, inr,
}
use mathlib.Core.Path.{ap₂}
use iec_61850_studio.Base.Result.{ok}
use iec_61850_studio.Base.Words.{Bytes}
use iec_61850_studio.Ber.Error.{Tag}
use iec_61850_studio.Ber.Tag.{tag_eq}
use iec_61850_studio.Ber.Tag.RoundTrip.{tag_eq_iff}
use iec_61850_studio.Ber.Reader.{BerReader, expect, read_tlv, read_if, peek_tag, is_empty}
use iec_61850_studio.Ber.Reader.Laws.{at, read_tlv-tlv_octets, peek_tag-tlv_octets}
use iec_61850_studio.Ber.Writer.{BerWriter, octet_string, octet_string_if}
use iec_61850_studio.Ber.Writer.Laws.{
  tlv_octets, length-tlv_octets, primitive-append, content-le-tlv_octets,
}

-- A field of a structure with its content, or without where it is left out.
abbrev pub Field : Type 0
Field = Tag × Option Bytes

abbrev pub option_octets : Tag → Option Bytes → Bytes
option_octets tag none = []
option_octets tag (some content) = tlv_octets tag content

abbrev pub fields_octets : List Field → Bytes
fields_octets [] = []
fields_octets ((tag, content) ∷ fs) = option_octets tag content ++ fields_octets fs

abbrev pub write_primitives : BerWriter → List Field → BerWriter
write_primitives w [] = w
write_primitives w ((tag, content) ∷ fs) = write_primitives (octet_string_if w tag content) fs

pub octet_string_if-append :
    (w : BerWriter) (tag : Tag) (content : Option Bytes)
    → octet_string_if w tag content ≡ w ++ option_octets tag content
unfolding octet_string
octet_string_if-append w tag none = sym (append-nil w)
octet_string_if-append w tag (some content) = primitive-append w tag content

pub write_primitives-append :
    (w : BerWriter) (fs : List Field) → write_primitives w fs ≡ w ++ fields_octets fs
write_primitives-append w [] = sym (append-nil w)
write_primitives-append w ((tag, content) ∷ fs) =
    write_primitives-append (octet_string_if w tag content) fs
    ∙ ap (λ (t : Bytes). t ++ fields_octets fs) (octet_string_if-append w tag content)
    ∙ append_assoc w (option_octets tag content) (fields_octets fs)

-- A cursor in front of `rest`, within an input that memory can hold.
abbrev pub Stands : BerReader → Bytes → Type 0
Stands r rest = (front : Bytes) × (r ≡ at front rest) × (length (front ++ rest) < 2 ^ 64)

pub read_tlv_step :
    (r : BerReader) (tag : Tag) (content rest : Bytes)
    → tag.number < 2 ^ 32
    → Stands r (tlv_octets tag content ++ rest)
    → (r' : BerReader) × (read_tlv r ≡ ok (record { tag = tag; content = content }, r'))
      × Stands r' rest
read_tlv_step r tag content rest small (front, e, total) =
    let moved = front ++ tlv_octets tag content in
    (
      at moved rest,
      rw (e, read_tlv-tlv_octets front rest tag content small total)
          (ap₂
            (λ (b : Bytes) (n : ℕ).
              ok (record { tag = tag; content = content }, record { bytes = b; pos = n }))
            (sym (append_assoc front (tlv_octets tag content) rest))
            (sym (length-append front (tlv_octets tag content)))),
      (
        moved,
        refl,
        subst (λ (t : Bytes). length t < 2 ^ 64)
            (sym (append_assoc front (tlv_octets tag content) rest)) total,
      ),
    )

pub expect_step :
    (r : BerReader) (tag : Tag) (content rest : Bytes)
    → tag.number < 2 ^ 32
    → Stands r (tlv_octets tag content ++ rest)
    → (r' : BerReader) × (expect r tag ≡ ok (content, r')) × Stands r' rest
unfolding expect
expect_step r tag content rest small stands =
    let (r', e, stands') = read_tlv_step r tag content rest small stands in
    let same : tag_eq tag tag ≡ true = (tag_eq_iff tag tag).1 refl in
    (r', rw (e, same) refl, stands')

pub at_end-is_empty : (r : BerReader) → Stands r [] → is_empty r ≡ true
unfolding is_empty
at_end-is_empty r (front, e, _) = rw e (ground (arith, length-append front []))

-- The sizes in front of a cursor.
sizes :
    (front : Bytes) (tag : Tag) (content rest : Bytes)
    → length (front ++ (tlv_octets tag content ++ rest))
      ≡ length front + (length (tlv_octets tag content) + length rest)
sizes front tag content rest =
    length-append front _
    ∙ ap (λ (n : ℕ). length front + n) (length-append (tlv_octets tag content) rest)

pub Stands-fits :
    (r : BerReader) (tag : Tag) (content rest : Bytes)
    → Stands r (tlv_octets tag content ++ rest)
    → length content < 2 ^ 64
Stands-fits r tag content rest (front, _, total) =
    omega (arith, sizes front tag content rest, total, content-le-tlv_octets tag content)

pub not-is_empty :
    (r : BerReader) (tag : Tag) (content rest : Bytes)
    → Stands r (tlv_octets tag content ++ rest)
    → is_empty r ≡ false
unfolding is_empty
not-is_empty r tag content rest (front, e, total) =
    let fits = Stands-fits r tag content rest (front, e, total) in
    let some_left : length front + 2 ≤ length (front ++ (tlv_octets tag content ++ rest)) =
      omega (arith, sizes front tag content rest, length-tlv_octets tag content fits) in
    rw e (ground (arith, some_left))

peek_tag_step :
    (r : BerReader) (tag : Tag) (content rest : Bytes)
    → tag.number < 2 ^ 32
    → Stands r (tlv_octets tag content ++ rest)
    → peek_tag r ≡ ok tag
peek_tag_step r tag content rest small (front, e, total) =
    ap peek_tag e ∙ peek_tag-tlv_octets front rest tag content small

-- What follows an optional field: nothing, or a field with another tag.
abbrev pub Follows : Tag → Bytes → Type 0
Follows tag rest =
    (rest ≡ [])
    ⊎ (other : Tag) × (content : Bytes) × (after : Bytes) × (rest
        ≡ tlv_octets other content ++ after)
      × (tag_eq other tag ≡ false)
      × (other.number < 2 ^ 32)

-- `read_if` on an optional field, written or left out.
pub read_if_step :
    (r : BerReader) (tag : Tag) (content : Option Bytes) (rest : Bytes)
    → tag.number < 2 ^ 32
    → Follows tag rest
    → Stands r (option_octets tag content ++ rest)
    → (r' : BerReader) × (read_if r tag ≡ ok (content, r')) × Stands r' rest
unfolding read_if
read_if_step r tag (some content) rest small follows stands =
    let (r', e, stands') = expect_step r tag content rest small stands in
    let same : tag_eq tag tag ≡ true = (tag_eq_iff tag tag).1 refl in
    (
      r',
      rw
          (
            not-is_empty r tag content rest stands,
            peek_tag_step r tag content rest small stands,
            same,
            e,
          )
          refl,
      stands',
    )
read_if_step r tag none rest small (inl e) stands =
    (r, rw (at_end-is_empty r (subst (Stands r) e stands)) refl, stands)
read_if_step r tag none rest small (inr (other, content, after, e, differs, fits)) stands =
    let stands' = subst (Stands r) e stands in
    (
      r,
      rw
          (
            not-is_empty r other content after stands',
            peek_tag_step r other content after fits stands',
            differs,
          )
          refl,
      stands,
    )

pub length-fields-drop :
    (n : ℕ) (fs : List Field) → length (fields_octets (drop n fs)) ≤ length (fields_octets fs)
length-fields-drop zero fs = omega arith
length-fields-drop (suc n) [] = omega arith
length-fields-drop (suc n) ((tag, content) ∷ fs) =
    omega
      (arith, length-fields-drop n fs, length-append (option_octets tag content) (fields_octets fs))
