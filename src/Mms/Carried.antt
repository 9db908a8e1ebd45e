-- ===== src/Mms/Carried.antt =====
-- Services in general: what one side writes, and what the other side's decoder makes of it.
pub mod Delivery
use iec_61850_studio.Base.{◌<◌, ◌≤◌, ◌^◌, [], length, ◌≡◌, sym, subst, arith}
use iec_61850_studio.Base.Result.{ok}
use iec_61850_studio.Base.Words.{Bytes}
use iec_61850_studio.Ber.Error.{Tag}
use iec_61850_studio.Ber.Reader.{Tlv}
use iec_61850_studio.Ber.Writer.{BerWriter}
use iec_61850_studio.Ber.Writer.Laws.{tlv_octets, content-le-tlv_octets}
use iec_61850_studio.Ber.Nested.{Appends}
use iec_61850_studio.Transport.Error.{MmsResult}

-- A writer appends one TLV, its number of 32 bits, and of that TLV a decoder reads a value.
abbrev pub Carries : {A : Type 0} → (BerWriter → BerWriter) → (Tlv → MmsResult A) → A → Type 0
Carries write decode a =
    (tag : Tag) × (content : Bytes) × (tag.number < 2 ^ 32)
    × Appends write (tlv_octets tag content)
    × (decode (record { tag = tag; content = content }) ≡ ok a)

-- What is written is of a size that memory can hold.
abbrev pub IsSized : (BerWriter → BerWriter) → Type 0
IsSized write = length (write []) < 2 ^ 64

-- A decoder need only be right on contents below 2 ^ 64 octets.
pub Carries-IsSized :
    {A : Type 0} (write : BerWriter → BerWriter) (decode : Tlv → MmsResult A) (a : A) (tag : Tag)
    (content : Bytes)
    → tag.number < 2 ^ 32
    → Appends write (tlv_octets tag content)
    → (length content < 2 ^ 64 → decode (record { tag = tag; content = content }) ≡ ok a)
    → IsSized write
    → Carries write decode a
Carries-IsSized write decode a tag content small appends decoded sized =
    let whole : length (tlv_octets tag content) < 2 ^ 64 =
      subst (λ (t : Bytes). length t < 2 ^ 64) (appends []) sized in
    (
      tag,
      content,
      small,
      appends,
      decoded (omega (arith, whole, content-le-tlv_octets tag content)),
    )
