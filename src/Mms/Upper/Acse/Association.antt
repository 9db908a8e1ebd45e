-- ===== src/Mms/Upper/Acse/Association.antt =====
-- An association is asked for and answered: the MMS PDU inside arrives, with the credentials and the verdict.
use iec_61850_studio.Base.{
  ◌<◌, ◌^◌, List, [], ◌∷◌, ◌++◌, Option, none, some, true, false, length, ◌≡◌, refl, arith,
  length-append,
}
use iec_61850_studio.Base.Result.{ok}
use iec_61850_studio.Base.Words.{Bytes}
use iec_61850_studio.Ber.Error.{Tag}
use iec_61850_studio.Ber.Tag.{tag_eq}
use iec_61850_studio.Ber.Primitives.{encode_integer, encode_oid}
use iec_61850_studio.Ber.Reader.{BerReader, new, read_tlv}
use iec_61850_studio.Ber.Writer.{BerWriter}
use iec_61850_studio.Ber.Writer.Laws.{tlv_octets}
use iec_61850_studio.Ber.Fields.{Stands, Stands-fits}
use iec_61850_studio.Ber.Nested.{
  Appends, Appends-then, Appends-tlv, Appends-integer, Appends-primitive, Appends-oid, Appends-raw,
  Appends-last, each_octets, expect_into, read_tlv_into, Stands-last,
}
use iec_61850_studio.Ber.Children.{Child, child_octets, search_children-octets}
use iec_61850_studio.Mms.Pdu.{context_tag, integer_tag}
use iec_61850_studio.Mms.Upper.Acse.{
  aarq_tag, external, user_information, single_asn1, oid_tag, auth_mech_password_oid,
  write_app_context, write_user_information, write_auth, aarq_auth, find_child, is_value,
  extract_external_value, parse_aarq, extract_auth_password,
}

abbrev pub children_octets : List Child → Bytes
children_octets children = each_octets child_octets children

-- The children of the PDUs.
abbrev pub app_context : Child
app_context = (context_tag 1 true, tlv_octets oid_tag (encode_oid 1 0 (9506 ∷ 2 ∷ 3 ∷ [])))

abbrev external_children : Bytes → List Child
external_children pdu = (integer_tag, encode_integer 3) ∷ (single_asn1, pdu) ∷ []

abbrev pub information_octets : Bytes → Bytes
information_octets pdu = tlv_octets external (children_octets (external_children pdu))

abbrev pub information : Bytes → Child
information pdu = (user_information, information_octets pdu)

abbrev auth_children : Option Bytes → List Child → List Child
auth_children none children = children
auth_children (some av) children =
    (context_tag 10 false, 0x04 ∷ 0x80 ∷ [])
    ∷ (context_tag 11 false, auth_mech_password_oid)
    ∷ (context_tag 12 true, tlv_octets (context_tag 0 false) av)
    ∷ children

abbrev aarq_children : Bytes → Option Bytes → List Child
aarq_children pdu auth = app_context ∷ auth_children auth (information pdu ∷ [])

pub write_app_context-Appends : Appends write_app_context (child_octets app_context)
write_app_context-Appends =
    Appends-tlv (context_tag 1 true) _ _ (Appends-oid oid_tag 1 0 (9506 ∷ 2 ∷ 3 ∷ []))

pub write_user_information-Appends :
    (pdu : Bytes) → Appends (write_user_information pdu) (child_octets (information pdu))
write_user_information-Appends pdu = Appends-tlv user_information _ _ (
    Appends-tlv external _ _ (
      Appends-then _ _ _ _ (Appends-integer integer_tag 3)
        (Appends-last _ _ (Appends-tlv single_asn1 _ _ (Appends-raw pdu)))))

-- Behind the credentials, or without.
write_auth-Appends :
    (auth : Option Bytes) (next : BerWriter → BerWriter) (children : List Child)
    → Appends next (children_octets children)
    → Appends (λ w. next (write_auth auth w)) (children_octets (auth_children auth children))
write_auth-Appends none next children h = h
write_auth-Appends (some av) next children h =
    Appends-then _ _ _ _ (Appends-primitive (context_tag 10 false) (0x04 ∷ 0x80 ∷ [])) (
      Appends-then _ _ _ _ (Appends-primitive (context_tag 11 false) auth_mech_password_oid) (
        Appends-then _ _ _ _
          (Appends-tlv (context_tag 12 true) _ _ (Appends-primitive (context_tag 0 false) av)) h))

aarq_auth-octets :
    (pdu : Bytes) (auth : Option Bytes)
    → aarq_auth pdu auth ≡ tlv_octets aarq_tag (children_octets (aarq_children pdu auth))
unfolding aarq_auth
aarq_auth-octets pdu auth =
    Appends-tlv aarq_tag _ (children_octets (aarq_children pdu auth))
      (Appends-then write_app_context (λ w. write_user_information pdu (write_auth auth w)) _ _
        write_app_context-Appends
        (write_auth-Appends auth (write_user_information pdu) (information pdu ∷ [])
          (Appends-last _ _ (write_user_information-Appends pdu))))
      []

pub extract_external_value-octets :
    (pdu : Bytes)
    → Stands (new (information_octets pdu)) (information_octets pdu)
    → extract_external_value (information_octets pdu) ≡ ok pdu
unfolding extract_external_value tag_eq
extract_external_value-octets pdu stands =
    let content : Bytes = children_octets (external_children pdu) in
    let (_, e, _, inside) =
      expect_into _ external content [] (omega arith) (Stands-last _ external content stands) in
    let found = search_children-octets is_value (external_children pdu) (omega arith) inside in
    rw (e, found) refl

-- The outer TLV of a PDU, and a cursor at its children.
pub read_outer :
    (tag : Tag) (content rest : Bytes)
    → tag.number < 2 ^ 32
    → length (tlv_octets tag content ++ rest) < 2 ^ 64
    → (r' : BerReader) × (read_tlv (new (tlv_octets tag content ++ rest))
        ≡ ok (record { tag = tag; content = content }, r'))
      × Stands (new content) content
read_outer tag content rest number small =
    let (r', e, _, inside) =
      read_tlv_into (new (tlv_octets tag content ++ rest)) tag content rest number
        ([], refl, small) in
    (r', e, inside)

-- A cursor at the content of one of the children.
pub child-Stands :
    (front : List Child) (tag : Tag) (content : Bytes) (children : List Child)
    → length (children_octets (front ++ (tag, content) ∷ children)) < 2 ^ 64
    → Stands (new content) content
child-Stands [] tag content children small = (
  [],
  refl,
  Stands-fits (new (children_octets ((tag, content) ∷ children))) tag content
      (children_octets children) ([], refl, small),
)
child-Stands ((t, c) ∷ front) tag content children small = child-Stands front tag content children (
    omega (
      arith,
      small,
      length-append (tlv_octets t c) (children_octets (front ++ (tag, content) ∷ children)),
    ))

pub Stands-small : (content : Bytes) → Stands (new content) content → length content < 2 ^ 64
Stands-small content (front, e, total) = omega (arith, total, length-append front content)

-- An input below 2 ^ 64 octets: the server finds in an AARQ the MMS PDU, and the credentials exactly where the client gave some.
pub parse_aarq-aarq_auth :
    (pdu : Bytes) (auth : Option Bytes) (rest : Bytes)
    → length (aarq_auth pdu auth ++ rest) < 2 ^ 64
    → (parse_aarq (aarq_auth pdu auth ++ rest) ≡ ok pdu)
      × (extract_auth_password (aarq_auth pdu auth ++ rest) ≡ auth)
unfolding parse_aarq extract_auth_password find_child tag_eq
parse_aarq-aarq_auth pdu none rest small =
    let whole = aarq_auth-octets pdu none in
    let children : List Child = aarq_children pdu none in
    let (_, e, inside) =
      read_outer aarq_tag (children_octets children) rest (omega arith) (rw whole at small) in
    let found =
      search_children-octets (λ t. tag_eq t user_information) children (omega arith) inside in
    let absent =
      search_children-octets (λ t. tag_eq t (context_tag 12 true)) children (omega arith) inside in
    let value = extract_external_value-octets pdu (
      child-Stands (app_context ∷ []) user_information (information_octets pdu) []
        (Stands-small _ inside)) in
    (rw (whole, e, found) value, rw (whole, e, absent) refl)
parse_aarq-aarq_auth pdu (some av) rest small =
    let whole = aarq_auth-octets pdu (some av) in
    let children : List Child = aarq_children pdu (some av) in
    let (_, e, inside) =
      read_outer aarq_tag (children_octets children) rest (omega arith) (rw whole at small) in
    let found =
      search_children-octets (λ t. tag_eq t user_information) children (omega arith) inside in
    let present =
      search_children-octets (λ t. tag_eq t (context_tag 12 true)) children (omega arith) inside in
    let fits = Stands-small _ inside in
    let value = extract_external_value-octets pdu (
      child-Stands
        (app_context
          ∷ (context_tag 10 false, 0x04 ∷ 0x80 ∷ [])
          ∷ (context_tag 11 false, auth_mech_password_oid)
          ∷ (context_tag 12 true, tlv_octets (context_tag 0 false) av)
          ∷ [])
        user_information (information_octets pdu) [] fits) in
    let inner =
      child-Stands
        (app_context
          ∷ (context_tag 10 false, 0x04 ∷ 0x80 ∷ [])
          ∷ (context_tag 11 false, auth_mech_password_oid)
          ∷ [])
        (context_tag 12 true) (tlv_octets (context_tag 0 false) av) (information pdu ∷ []) fits in
    let (_, password, _, _) =
      read_tlv_into _ (context_tag 0 false) av [] (omega arith) (Stands-last _ _ av inner) in
    (rw (whole, e, found) value, rw (whole, e, present, password) refl)
