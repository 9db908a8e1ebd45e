-- ===== src/Mms/Identify.antt =====
-- crates/iec61850-mms/src/mms/identify.rs: the service Identify.
use iec_61850_studio.Base.{◌<◌, ◌^◌, [], ◌++◌, true, false, length, ◌≡◌, refl, arith}
use iec_61850_studio.Base.Result.{ok, ◌>>=◌}
use iec_61850_studio.Base.Words.{Bytes}
use iec_61850_studio.Ber.Error.{Tag}
use iec_61850_studio.Ber.Tag.{tag_eq}
use iec_61850_studio.Ber.Reader.{Tlv, new}
use iec_61850_studio.Ber.Writer.{BerWriter, tlv, visible_string, null}
use iec_61850_studio.Ber.Writer.Laws.{tlv_octets}
use iec_61850_studio.Ber.Nested.{Appends, Appends-then, Appends-tlv, Appends-visible, Appends-last}
use iec_61850_studio.Ber.Std.{Std}
use iec_61850_studio.Transport.Error.{MmsResult}
use iec_61850_studio.Mms.Pdu.{context_tag, expect_service, read_text}
use iec_61850_studio.Mms.Pdu.Variables.{read_text_step}

-- `service::IDENTIFY_REQUEST` and `service::IDENTIFY_RESPONSE`
abbrev pub identify_request : Tag
identify_request = context_tag 2 false

abbrev pub identify_response : Tag
identify_response = context_tag 2 true

pub record IdentifyResponse : Type 0 where
  pub vendor : Bytes
  pub model : Bytes
  pub revision : Bytes

unfoldable pub write_request : BerWriter → BerWriter
write_request w = null w identify_request

unfoldable pub encode_response : IdentifyResponse → BerWriter → BerWriter
encode_response resp w = tlv w identify_response λ b.
    visible_string
      (visible_string (visible_string b (context_tag 0 false) resp.vendor) (context_tag 1 false)
        resp.model)
      (context_tag 2 false) resp.revision

unfoldable pub decode_response : Std → Tlv → MmsResult IdentifyResponse
decode_response s service_tlv = do
  content ← expect_service service_tlv identify_response
  (vendor, r₁) ← read_text s (new content) (context_tag 0 false)
  (model, r₂) ← read_text s r₁ (context_tag 1 false)
  (revision, _) ← read_text s r₂ (context_tag 2 false)
  ok (record { vendor = vendor; model = model; revision = revision })

abbrev pub identity_octets : IdentifyResponse → Bytes
identity_octets resp =
    tlv_octets (context_tag 0 false) resp.vendor
    ++ (tlv_octets (context_tag 1 false) resp.model
        ++ (tlv_octets (context_tag 2 false) resp.revision ++ []))

pub encode_response-Appends :
    (resp : IdentifyResponse)
    → Appends (encode_response resp) (tlv_octets identify_response (identity_octets resp))
unfolding encode_response
encode_response-Appends resp = Appends-tlv identify_response _ _ (
    Appends-then _ _ _ _ (Appends-visible (context_tag 0 false) resp.vendor) (
      Appends-then _ _ _ _ (Appends-visible (context_tag 1 false) resp.model)
        (Appends-last _ _ (Appends-visible (context_tag 2 false) resp.revision))))

-- An identity of three texts is read back from the response.
pub decode_response-identity :
    (s : Std) (resp : IdentifyResponse)
    → s.utf8 resp.vendor ≡ true
    → s.utf8 resp.model ≡ true
    → s.utf8 resp.revision ≡ true
    → length (identity_octets resp) < 2 ^ 64
    → decode_response s (record { tag = identify_response; content = identity_octets resp })
      ≡ ok resp
unfolding decode_response expect_service tag_eq
decode_response-identity s resp hv hm hr small =
    let (r₁, e₀, s₁) =
      read_text_step s (new (identity_octets resp)) (context_tag 0 false) resp.vendor _
        (omega arith) hv ([], refl, small) in
    let (r₂, e₁, s₂) = read_text_step s r₁ (context_tag 1 false) resp.model _ (omega arith) hm s₁ in
    let (_, e₂, _) =
      read_text_step s r₂ (context_tag 2 false) resp.revision [] (omega arith) hr s₂ in
    rw (e₀, e₁, e₂) refl
