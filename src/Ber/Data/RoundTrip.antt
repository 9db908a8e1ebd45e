-- ===== src/Ber/Data/RoundTrip.antt =====
-- What `encode` wrote, `decode` reads, or refuses for its depth.
use iec_61850_studio.Base.{
  ℕ, zero, suc, ◌+◌, ◌^◌, ◌≤◌, ◌<◌, max, [], ◌++◌, length, leb, if◌then◌else◌, true, false, ◌≡◌,
  refl, sym, ap, leb-true, ◌∙◌, arith, append_assoc, length-append, Bool-cases, inl, inr, subst,
}
use mathlib.Core.Path.{ap₂}
use iec_61850_studio.Base.Result.{ok, err, ◌>>=◌}
use iec_61850_studio.Base.Words.{Bytes, from_be-be_bytes}
use iec_61850_studio.Ber.Error.{Tag, BerResult, depth_exceeded}
use iec_61850_studio.Ber.Primitives.{encode_bool, decode_bool, decode_visible_string}
use iec_61850_studio.Ber.Primitives.Integer.{decode_integer-encode_integer}
use iec_61850_studio.Ber.Primitives.Unsigned.{decode_unsigned-encode_unsigned}
use iec_61850_studio.Ber.Reader.{Tlv, new, is_empty}
use iec_61850_studio.Ber.Reader.Laws.{at, read_tlv-tlv_octets}
use iec_61850_studio.Ber.Writer.Laws.{tlv_octets, length-tlv_octets, content-le-tlv_octets}
use iec_61850_studio.Ber.Std.{Std, IsIeee}
use iec_61850_studio.Ber.Data.Shape.{
  tag_of, content_of, items_octets, depth, depth_items, IsEncodable, AreEncodable, encode-append,
}
use iec_61850_studio.Ber.Data.{
  MmsData, Items, bool, int, uint, float, bit_string, octets, visible, mms_string, utc, binary_time,
  structure, array, nil, cons, encode_float, decode_float, decode_bit_string, decode_utc, encode,
  dispatch, decode_items, decode_at, decode, decode_data, max_nesting_depth,
}

-- `ok d` within the levels at hand.
abbrev pub bounded {ℓ} : {A : Type ℓ} → ℕ → ℕ → A → BerResult A
bounded depth levels d = if leb depth levels then ok d else err depth_exceeded

decode_float-encode_float :
    (s : Std) → IsIeee s → (v : ℕ) → v < 2 ^ 64 → decode_float s (encode_float s v) ≡ ok v
unfolding decode_float encode_float
decode_float-encode_float s ieee v h = elim (Bool-cases (s.f64_eq (s.as_f64 (s.as_f32 v)) v)) [
  | inl same ↦
      rw (same, from_be-be_bytes 4 (s.as_f32 v))
        (ap ok (ap s.as_f64 (omega (arith, ieee.as_f32-lt v)) ∙ ieee.exact v same))
  | inr other ↦ rw other (ap ok (from_be-be_bytes 8 v ∙ omega arith))
]

module _ (s : Std) (ieee : IsIeee s) where
  -- A scalar is read with no level left, whatever the reader of lists does.
  scalar :
      (d : MmsData) (list : Bytes → BerResult Items)
      → IsEncodable s d
      → depth d ≡ 0
      → dispatch s list (record { tag = tag_of d; content = content_of s d }) ≡ ok d
  unfolding dispatch IsEncodable content_of decode_bit_string decode_utc decode_visible_string depth
  scalar (bool true) list h z = unfold encode_bool decode_bool in refl
  scalar (bool false) list h z = unfold encode_bool decode_bool in refl
  scalar (int v) list h z = rw (decode_integer-encode_integer v h)
  scalar (uint v) list h z = rw (decode_unsigned-encode_unsigned v h)
  scalar (float v) list h z = rw (decode_float-encode_float s ieee v h)
  scalar (bit_string bs) list h z = ground arith
  scalar (octets b) list h z = refl
  scalar (visible t) list h z = rw (h.0)
  scalar (mms_string t) list h z = rw (h.0)
  scalar (utc u) list h z = ground arith
  scalar (binary_time b) list h z = refl
  scalar (structure items) list h z = absurd (omega arith)
  scalar (array items) list h z = absurd (omega arith)

-- Every tag of `tags` fits the first octet.
tag_of-number : (d : MmsData) → (tag_of d).number < 2 ^ 32
tag_of-number (bool v) = omega arith
tag_of-number _ = omega arith

at_end-is_empty : (front : Bytes) → is_empty (at front []) ≡ true
unfolding is_empty
at_end-is_empty front = ground (arith, length-append front [])

not-is_empty : (front rest : Bytes) → 0 < length rest → is_empty (at front rest) ≡ false
unfolding is_empty
not-is_empty front rest h = ground (arith, length-append front rest)

-- A cursor that moved on by `moved` stands behind more input.
at-append :
    (front moved rest : Bytes)
    → record { bytes = front ++ (moved ++ rest); pos = length front + length moved }
      ≡ at (front ++ moved) rest
at-append front moved rest =
    ap₂ (λ (b : Bytes) (n : ℕ). record { bytes = b; pos = n }) (sym (append_assoc front moved rest))
      (sym (length-append front moved))

module _ (element : Tlv → BerResult MmsData) where
  decode_items-end : (fuel : ℕ) (front : Bytes) → decode_items element fuel (at front []) ≡ ok nil
  unfolding decode_items
  decode_items-end zero front = rw (at_end-is_empty front)
  decode_items-end (suc n) front = rw (at_end-is_empty front)

  -- One round of the loop.
  decode_items-cons :
      (n : ℕ) (front rest : Bytes) (tag : Tag) (content : Bytes)
      → tag.number < 2 ^ 32
      → length (front ++ (tlv_octets tag content ++ rest)) < 2 ^ 64
      → 0 < length (tlv_octets tag content ++ rest)
      → decode_items element (suc n) (at front (tlv_octets tag content ++ rest)) ≡ (do
        it ← element (record { tag = tag; content = content })
        items ← decode_items element n (at (front ++ tlv_octets tag content) rest)
        ok (cons it items))
  unfolding decode_items
  decode_items-cons n front rest tag content ht small some_left =
      rw
        (
          not-is_empty front (tlv_octets tag content ++ rest) some_left,
          read_tlv-tlv_octets front rest tag content ht small,
          at-append front (tlv_octets tag content) rest,
        )
        refl

-- The sizes that a list of values has on the wire.
items_sizes :
    (front rest : Bytes) (tag : Tag) (content : Bytes)
    → length (front ++ (tlv_octets tag content ++ rest)) < 2 ^ 64
    → (length content < 2 ^ 64)
      × (2 ≤ length (tlv_octets tag content))
      × (length (tlv_octets tag content ++ rest) ≡ length (tlv_octets tag content) + length rest)
      × (length ((front ++ tlv_octets tag content) ++ rest) < 2 ^ 64)
items_sizes front rest tag content small =
    let e₁ = length-append front (tlv_octets tag content ++ rest) in
    let e₂ = length-append (tlv_octets tag content) rest in
    let fits : length content < 2 ^ 64 = omega (arith, e₁, e₂, content-le-tlv_octets tag content) in
    (
      fits,
      omega (arith, length-tlv_octets tag content fits),
      e₂,
      subst (λ (t : Bytes). length t < 2 ^ 64)
          (sym (append_assoc front (tlv_octets tag content) rest)) small,
    )

bounded-cons :
    (a b k : ℕ) (it : MmsData) (items : Items)
    → (do x ← bounded a k it; xs ← bounded b k items; ok (cons x xs))
      ≡ bounded (max a b) k (cons it items)
bounded-cons a b k it items = ground arith

bounded-suc :
    (n k : ℕ) (items : Items) (compound : Items → MmsData)
    → (do v ← bounded n k items; ok (compound v)) ≡ bounded (suc n) (suc k) (compound items)
bounded-suc n k items compound = ground arith

bounded-zero : (n : ℕ) (d : MmsData) → err depth_exceeded ≡ bounded (suc n) 0 d
bounded-zero n d = ground arith

-- The loop on one more value, given what it does on the value and on the others.
decode_items-bounded :
    (element : Tlv → BerResult MmsData) (k n : ℕ) (front rest : Bytes) (tag : Tag) (content : Bytes)
    (it : MmsData) (items : Items)
    → tag.number < 2 ^ 32
    → length (front ++ (tlv_octets tag content ++ rest)) < 2 ^ 64
    → element (record { tag = tag; content = content }) ≡ bounded (depth it) k it
    → decode_items element n (at (front ++ tlv_octets tag content) rest)
      ≡ bounded (depth_items items) k items
    → decode_items element (suc n) (at front (tlv_octets tag content ++ rest))
      ≡ bounded (depth_items (cons it items)) k (cons it items)
unfolding depth_items
decode_items-bounded element k n front rest tag content it items ht small e₁ e₂ =
    let (_, some_octets, e, _) = items_sizes front rest tag content small in
    decode_items-cons element n front rest tag content ht small (omega (arith, some_octets, e))
    ∙ rw (e₁, e₂) (bounded-cons (depth it) (depth_items items) k it items)

-- A list of values at the cursor, at the end of the input.
abbrev pub ReadsItems : Std → Items → Type 0
ReadsItems s items =
    (k fuel : ℕ) (front : Bytes)
    → AreEncodable s items
    → length (front ++ items_octets s items) < 2 ^ 64
    → length (items_octets s items) ≤ fuel
    → decode_items (decode_at s k) fuel (at front (items_octets s items))
      ≡ bounded (depth_items items) k items

abbrev Reads : Std → MmsData → Type 0
Reads s d =
    (levels : ℕ)
    → IsEncodable s d
    → length (content_of s d) < 2 ^ 64
    → decode_at s levels (record { tag = tag_of d; content = content_of s d })
      ≡ bounded (depth d) levels d

scalar-Reads : (s : Std) (ieee : IsIeee s) (d : MmsData) → depth d ≡ 0 → Reads s d
unfolding decode_at
scalar-Reads s ieee d z zero h small = scalar s ieee d (λ _. err depth_exceeded) h z ∙ rw z
scalar-Reads s ieee d z (suc levels) h small =
    scalar s ieee d (λ c. decode_items (decode_at s levels) (length c) (new c)) h z
    ∙ rw z (ground arith)

structure-Reads : (s : Std) (items : Items) → ReadsItems s items → Reads s (structure items)
unfolding decode_at dispatch depth content_of IsEncodable
structure-Reads s items ih zero h small = bounded-zero (depth_items items) (structure items)
structure-Reads s items ih (suc k) h small =
    rw (ih k (length (items_octets s items)) [] h small (omega arith))
      (bounded-suc (depth_items items) k items structure)

array-Reads : (s : Std) (items : Items) → ReadsItems s items → Reads s (array items)
unfolding decode_at dispatch depth content_of IsEncodable
array-Reads s items ih zero h small = bounded-zero (depth_items items) (array items)
array-Reads s items ih (suc k) h small =
    rw (ih k (length (items_octets s items)) [] h small (omega arith))
      (bounded-suc (depth_items items) k items array)

cons-ReadsItems :
    (s : Std) (it : MmsData) (items : Items)
    → Reads s it
    → ReadsItems s items
    → ReadsItems s (cons it items)
unfolding items_octets IsEncodable
cons-ReadsItems s it items first others k zero front h small enough =
    let (_, some_octets, e, _) =
      items_sizes front (items_octets s items) (tag_of it) (content_of s it) small in
    absurd (omega (arith, e, some_octets, enough))
cons-ReadsItems s it items first others k (suc n) front h small enough =
    let (fits, some_octets, e, small') =
      items_sizes front (items_octets s items) (tag_of it) (content_of s it) small in
    decode_items-bounded (decode_at s k) k n front (items_octets s items) (tag_of it)
      (content_of s it) it items (tag_of-number it) small (first k h.0 fits)
      (others k n (front ++ tlv_octets (tag_of it) (content_of s it)) h.1 small'
        (omega (arith, e, some_octets, enough)))

nil-ReadsItems : (s : Std) → ReadsItems s nil
unfolding items_octets depth_items
nil-ReadsItems s k fuel front h small enough =
    decode_items-end (decode_at s k) fuel front ∙ ground arith

mutual
  unfolding depth

  decode_at-Reads : (d : MmsData) (s : Std) → IsIeee s → Reads s d
  decode_at-Reads (bool v) s ieee = scalar-Reads s ieee (bool v) refl
  decode_at-Reads (int v) s ieee = scalar-Reads s ieee (int v) refl
  decode_at-Reads (uint v) s ieee = scalar-Reads s ieee (uint v) refl
  decode_at-Reads (float v) s ieee = scalar-Reads s ieee (float v) refl
  decode_at-Reads (bit_string bs) s ieee = scalar-Reads s ieee (bit_string bs) refl
  decode_at-Reads (octets b) s ieee = scalar-Reads s ieee (octets b) refl
  decode_at-Reads (visible t) s ieee = scalar-Reads s ieee (visible t) refl
  decode_at-Reads (mms_string t) s ieee = scalar-Reads s ieee (mms_string t) refl
  decode_at-Reads (utc u) s ieee = scalar-Reads s ieee (utc u) refl
  decode_at-Reads (binary_time b) s ieee = scalar-Reads s ieee (binary_time b) refl
  decode_at-Reads (structure items) s ieee =
      structure-Reads s items (decode_items-Reads items s ieee)
  decode_at-Reads (array items) s ieee = array-Reads s items (decode_items-Reads items s ieee)

  decode_items-Reads : (items : Items) (s : Std) → IsIeee s → ReadsItems s items
  decode_items-Reads nil s ieee = nil-ReadsItems s
  decode_items-Reads (cons it items) s ieee =
      cons-ReadsItems s it items (decode_at-Reads it s ieee) (decode_items-Reads items s ieee)

-- The contents of a list, read by the loop that reads lists.
pub decode_items-items_octets : (s : Std) → IsIeee s → (items : Items) → ReadsItems s items
decode_items-items_octets s ieee items = decode_items-Reads items s ieee

-- For a library that keeps `IsIeee`, a value that `IsEncodable` and an input below 2 ^ 64 octets:
-- `decode` on what `encode` wrote gives the value back where it nests at most 32 levels, and
-- `DepthExceeded` where it nests deeper; whatever follows the value is not looked at.
pub decode_data-encode :
    (s : Std) (d : MmsData) (rest : Bytes)
    → IsIeee s
    → IsEncodable s d
    → length (encode s d [] ++ rest) < 2 ^ 64
    → decode_data s (encode s d [] ++ rest)
      ≡ (if leb (depth d) max_nesting_depth then ok d else err depth_exceeded)
unfolding decode_data decode
decode_data-encode s d rest ieee h small =
    let e = encode-append s d [] in
    let small' : length (tlv_octets (tag_of d) (content_of s d) ++ rest) < 2 ^ 64 = rw e at small in
    let fits : length (content_of s d) < 2 ^ 64 = omega (
      arith,
      small',
      content-le-tlv_octets (tag_of d) (content_of s d),
      length-append (tlv_octets (tag_of d) (content_of s d)) rest,
    ) in
    rw (e, read_tlv-tlv_octets [] rest (tag_of d) (content_of s d) (tag_of-number d) small')
      (decode_at-Reads d s ieee 32 h fits)

-- The value of a TLV with the tag and the content of a value that nests at most 32 levels.
pub decode-content_of :
    (s : Std) (d : MmsData)
    → IsIeee s
    → IsEncodable s d
    → depth d ≤ 32
    → length (content_of s d) < 2 ^ 64
    → decode s (record { tag = tag_of d; content = content_of s d }) ≡ ok d
unfolding decode
decode-content_of s d ieee h nests fits =
    decode_at-Reads d s ieee 32 h fits ∙ rw (leb-true (depth d) 32 nests) refl
