-- ===== src/Goose/Pdu/RoundTrip.antt =====
-- What `GoosePdu::encode` wrote, `GoosePdu::decode` reads.
use iec_61850_studio.Base.{
  ℕ, ◌^◌, ◌≤◌, ◌<◌, List, [], Bool, ◌∷◌, ◌++◌, length, drop, true, false, ◌≡◌, refl, sym, ◌∙◌,
  arith, some, length-append, leb-true, ltb-true,
}
use iec_61850_studio.Base.Result.{ok, ◌>>=◌}
use iec_61850_studio.Base.Words.{Bytes}
use iec_61850_studio.Ber.Error.{Tag}
use iec_61850_studio.Ber.Tag.{tag_eq}
use iec_61850_studio.Ber.Primitives.{
  encode_unsigned, decode_unsigned, encode_bool, decode_bool, decode_visible_string,
}
use iec_61850_studio.Ber.Primitives.Unsigned.{decode_unsigned-encode_unsigned}
use iec_61850_studio.Ber.Reader.{BerReader, new}
use iec_61850_studio.Ber.Reader.Laws.{read_tlv-tlv_octets}
use iec_61850_studio.Ber.Writer.{BerWriter, boolean, unsigned, visible_string, octet_string}
use iec_61850_studio.Ber.Writer.Laws.{
  tlv_octets, primitive-append, tlv-append, content-le-tlv_octets,
}
use iec_61850_studio.Ber.Fields.{
  Field, fields_octets, write_primitives-append, Stands, expect_step, length-fields-drop,
}
use iec_61850_studio.Ber.Std.{Std, IsIeee}
use iec_61850_studio.Ber.Data.{UtcTime, Items, encode_items, decode_items, decode as decode_value}
use iec_61850_studio.Ber.Data.Shape.{items_octets, AreEncodable, depth_items, encode_items-append}
use iec_61850_studio.Ber.Data.RoundTrip.{decode_items-items_octets}
use iec_61850_studio.Goose.Pdu.{
  GoosePdu, GooseResult, goose_apdu, field_tag, all_data_tag, write_fields, encode, read_field,
  read_visible, read_u32, read_bool, read_utc, read_fields, decode, as_u32, as_utc, from_ber,
}

-- The fields of a PDU and their contents, in the order of the wire.
abbrev pub fields : Std → GoosePdu → List Field
fields s p =
    (field_tag 0, some p.gocb_ref)
    ∷ (field_tag 1, some (encode_unsigned p.time_allowed_to_live))
    ∷ (field_tag 2, some p.dat_set)
    ∷ (field_tag 3, some p.go_id)
    ∷ (field_tag 4, some p.t.raw)
    ∷ (field_tag 5, some (encode_unsigned p.st_num))
    ∷ (field_tag 6, some (encode_unsigned p.sq_num))
    ∷ (field_tag 7, some (encode_bool p.test))
    ∷ (field_tag 8, some (encode_unsigned p.conf_rev))
    ∷ (field_tag 9, some (encode_bool p.nds_com))
    ∷ (field_tag 10, some (encode_unsigned p.num_dat_set_entries))
    ∷ (all_data_tag, some (items_octets s p.all_data))
    ∷ []

write_fields-append :
    (s : Std) (p : GoosePdu) (w : BerWriter) → write_fields s p w ≡ w ++ fields_octets (fields s p)
unfolding visible_string unsigned boolean octet_string
write_fields-append s p w =
    tlv-append _ all_data_tag (encode_items s p.all_data) (items_octets s p.all_data)
      (encode_items-append s p.all_data)
    ∙ sym (primitive-append _ all_data_tag (items_octets s p.all_data))
    ∙ write_primitives-append w (fields s p)

field_step :
    {A : Type 0} (r : BerReader) (tag : Tag) (content rest : Bytes)
    (decoder : Bytes → GooseResult A) (v : A)
    → tag.number < 2 ^ 32
    → decoder content ≡ ok v
    → Stands r (tlv_octets tag content ++ rest)
    → (r' : BerReader) × (read_field r tag decoder ≡ ok (v, r')) × Stands r' rest
field_step r tag content rest decoder v small e stands =
    let (r', e₁, stands') = expect_step r tag content rest small stands in
    (r', rw (e₁, e) refl, stands')

-- The values of the Rust type, with data that nests at most 32 levels.
pub record IsGoosePdu (s : Std) (p : GoosePdu) : Type 0 where
  pub gocb_ref_utf8 : s.utf8 p.gocb_ref ≡ true
  pub dat_set_utf8 : s.utf8 p.dat_set ≡ true
  pub go_id_utf8 : s.utf8 p.go_id ≡ true
  pub t_eight : length p.t.raw ≡ 8
  pub u32s :
      (p.time_allowed_to_live < 2 ^ 32)
      × (p.st_num < 2 ^ 32)
      × (p.sq_num < 2 ^ 32)
      × (p.conf_rev < 2 ^ 32)
      × (p.num_dat_set_entries < 2 ^ 32)
  pub encodable : AreEncodable s p.all_data
  pub nests : depth_items p.all_data ≤ 32

u32_content :
    (v : ℕ) → v < 2 ^ 32 → from_ber (decode_unsigned (encode_unsigned v)) >>= as_u32 ≡ ok v
u32_content v h = rw (decode_unsigned-encode_unsigned v (omega arith), ltb-true v (2 ^ 32) h) refl

bool_content : (b : Bool) → from_ber (decode_bool (encode_bool b)) ≡ ok b
unfolding decode_bool encode_bool
bool_content true = refl
bool_content false = refl

string_content :
    (s : Std) (c : Bytes) → s.utf8 c ≡ true → from_ber (decode_visible_string s.utf8 c) ≡ ok c
unfolding decode_visible_string
string_content s c h = rw h refl

-- The data, read to the end of its content.
data_content :
    (s : Std) (items : Items)
    → IsIeee s
    → AreEncodable s items
    → depth_items items ≤ 32
    → length (items_octets s items) < 2 ^ 64
    → decode_items (decode_value s) (length (items_octets s items)) (new (items_octets s items))
      ≡ ok items
unfolding decode_value
data_content s items ieee h nests small =
    decode_items-items_octets s ieee items 32 (length (items_octets s items)) [] h small
      (omega arith)
    ∙ rw (leb-true (depth_items items) 32 nests) refl

-- The readers of a field, each on the content that its writer gives.
visible_step :
    (s : Std) (r : BerReader) (n : ℕ) (c rest : Bytes)
    → n < 2 ^ 32
    → s.utf8 c ≡ true
    → Stands r (tlv_octets (field_tag n) c ++ rest)
    → (r' : BerReader) × (read_visible s r (field_tag n) ≡ ok (c, r')) × Stands r' rest
unfolding read_visible
visible_step s r n c rest hn h stands =
    field_step r (field_tag n) c rest (λ c. from_ber (decode_visible_string s.utf8 c)) c hn
      (string_content s c h) stands

u32_step :
    (r : BerReader) (n v : ℕ) (rest : Bytes)
    → n < 2 ^ 32
    → v < 2 ^ 32
    → Stands r (tlv_octets (field_tag n) (encode_unsigned v) ++ rest)
    → (r' : BerReader) × (read_u32 r (field_tag n) ≡ ok (v, r')) × Stands r' rest
unfolding read_u32
u32_step r n v rest hn h stands =
    field_step r (field_tag n) (encode_unsigned v) rest
      (λ c. from_ber (decode_unsigned c) >>= as_u32) v hn (u32_content v h) stands

bool_step :
    (r : BerReader) (n : ℕ) (b : Bool) (rest : Bytes)
    → n < 2 ^ 32
    → Stands r (tlv_octets (field_tag n) (encode_bool b) ++ rest)
    → (r' : BerReader) × (read_bool r (field_tag n) ≡ ok (b, r')) × Stands r' rest
unfolding read_bool
bool_step r n b rest hn stands =
    field_step r (field_tag n) (encode_bool b) rest (λ c. from_ber (decode_bool c)) b hn
      (bool_content b) stands

utc_step :
    (r : BerReader) (n : ℕ) (t : UtcTime) (rest : Bytes)
    → n < 2 ^ 32
    → length t.raw ≡ 8
    → Stands r (tlv_octets (field_tag n) t.raw ++ rest)
    → (r' : BerReader) × (read_utc r (field_tag n) ≡ ok (t, r')) × Stands r' rest
unfolding read_utc
utc_step r n t rest hn h stands =
    field_step r (field_tag n) t.raw rest as_utc t hn (rw h refl) stands

abbrev after : Std → GoosePdu → ℕ → Bytes
after s p n = fields_octets (drop n (fields s p))

read_fields_lem :
    (s : Std) (p : GoosePdu) (r : BerReader)
    → IsIeee s
    → IsGoosePdu s p
    → length (items_octets s p.all_data) < 2 ^ 64
    → Stands r (fields_octets (fields s p))
    → read_fields s r ≡ ok p
unfolding read_fields
read_fields_lem s p r₀ ieee h small stands =
    let (ha, hb, hc, hd, he) = h.u32s in
    let (r₁, e₀, s₁) =
      visible_step s r₀ 0 p.gocb_ref (after s p 1) (omega arith) h.gocb_ref_utf8 stands in
    let (r₂, e₁, s₂) = u32_step r₁ 1 p.time_allowed_to_live (after s p 2) (omega arith) ha s₁ in
    let (r₃, e₂, s₃) =
      visible_step s r₂ 2 p.dat_set (after s p 3) (omega arith) h.dat_set_utf8 s₂ in
    let (r₄, e₃, s₄) = visible_step s r₃ 3 p.go_id (after s p 4) (omega arith) h.go_id_utf8 s₃ in
    let (r₅, e₄, s₅) = utc_step r₄ 4 p.t (after s p 5) (omega arith) h.t_eight s₄ in
    let (r₆, e₅, s₆) = u32_step r₅ 5 p.st_num (after s p 6) (omega arith) hb s₅ in
    let (r₇, e₆, s₇) = u32_step r₆ 6 p.sq_num (after s p 7) (omega arith) hc s₆ in
    let (r₈, e₇, s₈) = bool_step r₇ 7 p.test (after s p 8) (omega arith) s₇ in
    let (r₉, e₈, s₉) = u32_step r₈ 8 p.conf_rev (after s p 9) (omega arith) hd s₈ in
    let (r₁₀, e₉, s₁₀) = bool_step r₉ 9 p.nds_com (after s p 10) (omega arith) s₉ in
    let (r₁₁, e₁₀, s₁₁) =
      u32_step r₁₀ 10 p.num_dat_set_entries (after s p 11) (omega arith) he s₁₀ in
    let (r₁₂, e₁₁, s₁₂) =
      expect_step r₁₁ all_data_tag (items_octets s p.all_data) [] (omega arith) s₁₁ in
    let e₁₂ = data_content s p.all_data ieee h.encodable h.nests small in
    rw (e₀, e₁, e₂, e₃, e₄, e₅, e₆, e₇, e₈, e₉, e₁₀, e₁₁, e₁₂) refl

items-le-fields :
    (s : Std) (p : GoosePdu)
    → length (items_octets s p.all_data) ≤ length (fields_octets (fields s p))
items-le-fields s p = omega (
  arith,
  length-fields-drop 11 (fields s p),
  length-append (tlv_octets all_data_tag (items_octets s p.all_data)) [],
  content-le-tlv_octets all_data_tag (items_octets s p.all_data),
)

-- For a library that keeps `IsIeee`, a PDU that `IsGoosePdu` and an input below 2 ^ 64 octets: `decode`
-- reads back the PDU that `encode` wrote, whatever follows it.
pub decode-encode_pdu :
    (s : Std) (p : GoosePdu) (rest : Bytes)
    → IsIeee s
    → IsGoosePdu s p
    → length (encode s p ++ rest) < 2 ^ 64
    → decode s (encode s p ++ rest) ≡ ok p
unfolding encode decode tag_eq read_fields
decode-encode_pdu s p rest ieee h small =
    let content : Bytes = fields_octets (fields s p) in
    let e : encode s p ≡ tlv_octets goose_apdu content =
      tlv-append [] goose_apdu _ content (write_fields-append s p) in
    let small' : length (tlv_octets goose_apdu content ++ rest) < 2 ^ 64 = rw e at small in
    let fits : length content < 2 ^ 64 = omega (
      arith,
      small',
      content-le-tlv_octets goose_apdu content,
      length-append (tlv_octets goose_apdu content) rest,
    ) in
    rw (e, read_tlv-tlv_octets [] rest goose_apdu content (omega arith) small')
      (read_fields_lem s p (new content) ieee h (omega (arith, fits, items-le-fields s p))
        ([], refl, fits))
