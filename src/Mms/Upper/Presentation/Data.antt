-- ===== src/Mms/Upper/Presentation/Data.antt =====
-- The envelope of the data phase: the PDU that one side put in, the other side takes out.
use iec_61850_studio.Base.{ℕ, ◌<◌, ◌^◌, List, [], ◌∷◌, ◌++◌, length, ◌≡◌, refl, ap, ◌∙◌, arith}
use iec_61850_studio.Base.Result.{ok}
use iec_61850_studio.Base.Words.{Bytes}
use iec_61850_studio.Ber.Tag
use iec_61850_studio.Ber.Tag.{tag_eq}
use iec_61850_studio.Ber.Length.{encode_len}
use iec_61850_studio.Ber.Primitives.{encode_integer}
use iec_61850_studio.Ber.Reader.{new, read_tlv}
use iec_61850_studio.Ber.Writer.{sequence_tag}
use iec_61850_studio.Ber.Writer.Laws.{tlv_octets}
use iec_61850_studio.Ber.Fields.{Stands}
use iec_61850_studio.Ber.Nested.{
  Appends-then, Appends-tlv, Appends-sequence, Appends-integer, Appends-raw, Appends-last,
  each_octets, expect_into, Stands-last,
}
use iec_61850_studio.Ber.Children.{Child, child_octets, search_children-octets}
use iec_61850_studio.Mms.Pdu.{integer_tag}
use iec_61850_studio.Mms.Upper.Acse.{single_asn1, is_value}
use iec_61850_studio.Mms.Upper.Acse.Association.{read_outer}
use iec_61850_studio.Mms.Upper.Session.{data_pdu}
use iec_61850_studio.Mms.Upper.Presentation.{
  fully_encoded, user_data, drill_pdv, envelope_or, extract_inner_pdu,
}

abbrev pdv_children : Bytes → ℕ → List Child
pdv_children pdu context_id = (integer_tag, encode_integer context_id) ∷ (single_asn1, pdu) ∷ []

abbrev pub pdv_octets : Bytes → ℕ → Bytes
pdv_octets pdu context_id =
    tlv_octets sequence_tag (each_octets child_octets (pdv_children pdu context_id))

pub user_data-octets :
    (pdu : Bytes) (context_id : ℕ)
    → user_data pdu context_id ≡ tlv_octets fully_encoded (pdv_octets pdu context_id)
unfolding user_data
user_data-octets pdu context_id =
    Appends-tlv fully_encoded _ (pdv_octets pdu context_id)
      (Appends-sequence _ _ (
        Appends-then _ _ _ _ (Appends-integer integer_tag context_id)
          (Appends-last _ _ (Appends-tlv single_asn1 _ _ (Appends-raw pdu)))))
      []

pub drill_pdv-octets :
    (pdu : Bytes) (context_id : ℕ)
    → Stands (new (pdv_octets pdu context_id)) (pdv_octets pdu context_id)
    → drill_pdv (pdv_octets pdu context_id) ≡ ok pdu
unfolding drill_pdv tag_eq
drill_pdv-octets pdu context_id stands =
    let children : List Child = pdv_children pdu context_id in
    let (_, e, _, inside) =
      expect_into _ sequence_tag (each_octets child_octets children) [] (omega arith)
        (Stands-last _ sequence_tag _ stands) in
    let found = search_children-octets is_value children (omega arith) inside in rw (e, found) refl

-- The identifier octet for which `extract_inner_pdu` looks.
first_octet : Tag.encode [] fully_encoded ≡ 0x61 ∷ []
unfolding Tag.encode
first_octet = refl

extract_step :
    (buf rest : Bytes)
    → buf ≡ 0x61 ∷ rest
    → extract_inner_pdu buf ≡ envelope_or (read_tlv (new buf)) (extract_inner_pdu rest)
unfolding extract_inner_pdu
extract_step buf rest e = rw e refl

-- An envelope below 2 ^ 64 octets, at the start of a buffer.
extract_inner_pdu-user_data :
    (pdu rest : Bytes) (context_id : ℕ)
    → length (user_data pdu context_id ++ rest) < 2 ^ 64
    → extract_inner_pdu (user_data pdu context_id ++ rest) ≡ ok pdu
unfolding tag_eq
extract_inner_pdu-user_data pdu rest context_id small =
    let content : Bytes = pdv_octets pdu context_id in
    let e = user_data-octets pdu context_id in
    let (r', read, inside) = read_outer fully_encoded content rest (omega arith) (rw e at small) in
    let first : tlv_octets fully_encoded content ++ rest
        ≡ 0x61 ∷ ((encode_len [] (length content) ++ content) ++ rest) =
      ap (λ (t : Bytes). (t ++ (encode_len [] (length content) ++ content)) ++ rest) first_octet in
    ap (λ (t : Bytes). extract_inner_pdu (t ++ rest)) e
    ∙ extract_step (tlv_octets fully_encoded content ++ rest)
        ((encode_len [] (length content) ++ content) ++ rest) first
    ∙ rw (read, drill_pdv-octets pdu context_id inside) refl

-- For an input below 2 ^ 64 octets: from a session data unit with the envelope of a PDU, under any context, the other side takes
-- the PDU, whatever follows.
pub extract_inner_pdu-data_pdu :
    (pdu rest : Bytes) (context_id : ℕ)
    → length (data_pdu (user_data pdu context_id) ++ rest) < 2 ^ 64
    → extract_inner_pdu (data_pdu (user_data pdu context_id) ++ rest) ≡ ok pdu
unfolding extract_inner_pdu data_pdu
extract_inner_pdu-data_pdu pdu rest context_id small =
    extract_inner_pdu-user_data pdu rest context_id (omega arith)
