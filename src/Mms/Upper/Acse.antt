-- ===== src/Mms/Upper/Acse.antt =====
-- crates/iec61850-mms/src/upper/acse.rs: the PDUs AARQ and AARE, which set an association up. The texts of the errors are
-- left out.
pub mod Association
pub mod Verdict
use iec_61850_studio.Base.{
  ℕ, List, [], ◌∷◌, Option, none, some, Bool, true, false, ◌==◌, ◌||◌, not, if◌then◌else◌,
}
use iec_61850_studio.Base.Result.{ok, err, ◌>>=◌, ◌>>◌}
use iec_61850_studio.Base.Words.{Bytes}
use iec_61850_studio.Ber.Error.{Tag, BerResult, universal, application, structure}
use iec_61850_studio.Ber.Tag.{tag_eq, new as new_tag}
use iec_61850_studio.Ber.Primitives.{decode_integer}
use iec_61850_studio.Ber.Reader.{Tlv, BerReader, new, read_tlv, expect}
use iec_61850_studio.Ber.Writer.{BerWriter, tlv, raw, primitive, integer, object_identifier}
use iec_61850_studio.Ber.Children.{search_children}
use iec_61850_studio.Transport.Error.{MmsResult, ber, associate_rejected}
use iec_61850_studio.Mms.Pdu.{context_tag, integer_tag, from_ber}

abbrev pub aarq_tag : Tag
aarq_tag = new_tag application true 0

abbrev pub aare_tag : Tag
aare_tag = new_tag application true 1

abbrev pub external : Tag
external = new_tag universal true 8

abbrev pub user_information : Tag
user_information = context_tag 30 true

abbrev pub single_asn1 : Tag
single_asn1 = context_tag 0 true

abbrev pub oid_tag : Tag
oid_tag = new_tag universal false 6

abbrev pub mms_pres_context_id : ℕ
mms_pres_context_id = 3

abbrev pub auth_mech_password_oid : Bytes
auth_mech_password_oid = 0x52 ∷ 0x03 ∷ 0x01 ∷ []

-- application-context-name, with `MMS_APP_CONTEXT`
abbrev pub write_app_context : BerWriter → BerWriter
write_app_context w =
    tlv w (context_tag 1 true) (λ b. object_identifier b oid_tag 1 0 (9506 ∷ 2 ∷ 3 ∷ []))

abbrev pub write_user_information : Bytes → BerWriter → BerWriter
write_user_information pdu w = tlv w user_information λ b.
    tlv b external λ c. tlv (integer c integer_tag mms_pres_context_id) single_asn1 (λ d. raw d pdu)

-- `if let Some(av) = auth_value`
abbrev pub write_auth : Option Bytes → BerWriter → BerWriter
write_auth none w = w
write_auth (some av) w =
    tlv
      (primitive (primitive w (context_tag 10 false) (0x04 ∷ 0x80 ∷ [])) (context_tag 11 false)
        auth_mech_password_oid)
      (context_tag 12 true) (λ b. primitive b (context_tag 0 false) av)

unfoldable pub aarq_auth : Bytes → Option Bytes → Bytes
aarq_auth initiate_pdu auth_value =
    tlv [] aarq_tag
      (λ w. write_user_information initiate_pdu (write_auth auth_value (write_app_context w)))

unfoldable pub aarq : Bytes → Bytes
aarq initiate_pdu = aarq_auth initiate_pdu none

-- The result and its diagnostic.
abbrev pub write_diagnostic : ℕ → ℕ → BerWriter → BerWriter
write_diagnostic result diagnostic w =
    tlv (tlv w (context_tag 2 true) (λ b. integer b integer_tag result)) (context_tag 3 true)
      (λ b. tlv b (context_tag 1 true) (λ c. integer c integer_tag diagnostic))

unfoldable pub aare : Bytes → Bytes
aare initiate_response =
    tlv [] aare_tag
      (λ w. write_user_information initiate_response (write_diagnostic 0 0 (write_app_context w)))

unfoldable pub aare_reject : Bytes
aare_reject = tlv [] aare_tag (λ w. write_diagnostic 1 6 (write_app_context w))

unfoldable pub find_child : Bytes → Tag → BerResult (Option Tlv)
find_child content tag = search_children (λ t. tag_eq t tag) content

abbrev pub is_value : Tag → Bool
is_value t = tag_eq t single_asn1 || tag_eq t (context_tag 1 false)

abbrev pub value_of : Option Tlv → MmsResult Bytes
value_of none = err (ber structure)
value_of (some t) = ok t.content

unfoldable pub extract_external_value : Bytes → MmsResult Bytes
extract_external_value user_info = do
  (content, _) ← from_ber (expect (new user_info) external)
  found ← from_ber (search_children is_value content)
  value_of found

-- `user-information`, which an association has.
abbrev pub with_user_information : Option Tlv → MmsResult Bytes
with_user_information none = err associate_rejected
with_user_information (some t) = extract_external_value t.content

abbrev pub user_pdu : Bytes → MmsResult Bytes
user_pdu content = do
  found ← from_ber (find_child content user_information)
  with_user_information found

-- `parse_associate(data, AARQ)`
unfoldable pub parse_aarq : Bytes → MmsResult Bytes
parse_aarq bytes = do
  (outer, _) ← from_ber (read_tlv (new bytes))
  (if not (tag_eq outer.tag aarq_tag) then err associate_rejected else user_pdu outer.content)

-- The result, where the primitive form stands.
abbrev pub implicit_result : Option Tlv → MmsResult (Option ℕ)
implicit_result none = ok none
implicit_result (some t) = do v ← from_ber (decode_integer t.content); ok (some v)

abbrev pub result_value : Bytes → Option Tlv → MmsResult (Option ℕ)
result_value content (some explicit) = do
  (c, _) ← from_ber (expect (new explicit.content) integer_tag)
  v ← from_ber (decode_integer c)
  ok (some v)
result_value content none = do
  found ← from_ber (find_child content (context_tag 2 false))
  implicit_result found

-- A result other than `accepted`; the diagnostic is looked for.
abbrev pub check_result : Bytes → Option ℕ → MmsResult (Unit {0})
check_result content none = ok tt
check_result content (some result) =
    if result == 0
    then ok tt
    else (do _ ← from_ber (find_child content (context_tag 3 true)); err associate_rejected)

abbrev pub accepted_pdu : Bytes → MmsResult Bytes
accepted_pdu content = do
  explicit ← from_ber (find_child content (context_tag 2 true))
  result ← result_value content explicit
  check_result content result
  user_pdu content

unfoldable pub parse_aare : Bytes → MmsResult Bytes
parse_aare bytes = do
  (outer, _) ← from_ber (read_tlv (new bytes))
  (if not (tag_eq outer.tag aare_tag) then err associate_rejected else accepted_pdu outer.content)

-- `.ok()?`
abbrev pub password_in : BerResult (Tlv × BerReader) → Option Bytes
password_in (ok (charstring, _)) = some charstring.content
password_in (err _) = none

abbrev pub password_of : BerResult (Option Tlv) → Option Bytes
password_of (ok (some av)) = password_in (read_tlv (new av.content))
password_of _ = none

abbrev pub auth_password : BerResult (Tlv × BerReader) → Option Bytes
auth_password (ok (outer, _)) =
    if not (tag_eq outer.tag aarq_tag)
    then none
    else password_of (find_child outer.content (context_tag 12 true))
auth_password (err _) = none

unfoldable pub extract_auth_password : Bytes → Option Bytes
extract_auth_password bytes = auth_password (read_tlv (new bytes))
