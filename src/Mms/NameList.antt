-- ===== src/Mms/NameList.antt =====
-- crates/iec61850-mms/src/mms/get_name_list.rs: requests and pages of the service GetNameList.
pub mod RoundTrip
use iec_61850_studio.Base.{ℕ, List, Option, none, some, Bool, true, false, ◌==◌, if◌then◌else◌}
use iec_61850_studio.Base.Result.{ok, err, ◌>>=◌}
use iec_61850_studio.Base.Words.{Bytes}
use iec_61850_studio.Ber.Error.{Tag}
use iec_61850_studio.Ber.Tag.{tag_eq}
use iec_61850_studio.Ber.Primitives.{decode_integer, decode_visible_string, decode_bool}
use iec_61850_studio.Ber.Reader.{Tlv, BerReader, new, read_tlv, expect, read_if}
use iec_61850_studio.Ber.Writer.{
  BerWriter, tlv, integer, visible_string, boolean, null, octet_string_if,
}
use iec_61850_studio.Ber.Nested.{write_each}
use iec_61850_studio.Ber.Std.{Std}
use iec_61850_studio.Transport.Error.{MmsResult, service_reject, unexpected_pdu}
use iec_61850_studio.Mms.Loop.{read_each}
use iec_61850_studio.Mms.Pdu.{context_tag, visible_string_tag, from_ber, expect_service, read_text}

-- `service::GET_NAME_LIST`
abbrev pub get_name_list : Tag
get_name_list = context_tag 1 true

pub data ObjectClass : Type 0 where
  named_variable domain : ObjectClass

pub data ObjectScope : Type 0 where
  vmd_specific : ObjectScope
  domain_specific : Bytes → ObjectScope

pub record GetNameListRequest : Type 0 where
  pub class : ObjectClass
  pub scope : ObjectScope
  pub continue_after : Option Bytes

pub record GetNameListResponse : Type 0 where
  pub identifiers : List Bytes
  pub more_follows : Bool

unfoldable pub class_code : ObjectClass → ℕ
class_code named_variable = 0
class_code domain = 9

abbrev pub class_from_code : ℕ → MmsResult ObjectClass
class_from_code code =
    if code == 0 then ok named_variable else if code == 9 then ok domain else err service_reject

abbrev pub write_scope : ObjectScope → BerWriter → BerWriter
write_scope vmd_specific w = null w (context_tag 0 false)
write_scope (domain_specific d) w = visible_string w (context_tag 1 false) d

unfoldable pub write_request : GetNameListRequest → BerWriter → BerWriter
write_request req w = tlv w get_name_list λ b.
    octet_string_if
      (tlv
        (tlv b (context_tag 0 true) (λ c. integer c (context_tag 0 false) (class_code req.class)))
        (context_tag 1 true) (write_scope req.scope))
      (context_tag 2 false) req.continue_after

abbrev pub scope_of : Std → Tlv → MmsResult ObjectScope
scope_of s t =
    if tag_eq t.tag (context_tag 0 false)
    then ok vmd_specific
    else if tag_eq t.tag (context_tag 1 false)
    then (do d ← from_ber (decode_visible_string s.utf8 t.content); ok (domain_specific d))
    else err unexpected_pdu

abbrev pub optional_text : Std → Option Bytes → MmsResult (Option Bytes)
optional_text s none = ok none
optional_text s (some c) = do text ← from_ber (decode_visible_string s.utf8 c); ok (some text)

unfoldable pub decode_request : Std → Tlv → MmsResult GetNameListRequest
decode_request s service_tlv = do
  content ← expect_service service_tlv get_name_list
  (class_outer, r₁) ← from_ber (expect (new content) (context_tag 0 true))
  (class_content, _) ← from_ber (expect (new class_outer) (context_tag 0 false))
  code ← from_ber (decode_integer class_content)
  class ← class_from_code code
  (scope_outer, r₂) ← from_ber (expect r₁ (context_tag 1 true))
  (scope_tlv, _) ← from_ber (read_tlv (new scope_outer))
  scope ← scope_of s scope_tlv
  (after, _) ← from_ber (read_if r₂ (context_tag 2 false))
  continue_after ← optional_text s after
  ok (record { class = class; scope = scope; continue_after = continue_after })

unfoldable pub encode_response : GetNameListResponse → BerWriter → BerWriter
encode_response resp w = tlv w get_name_list λ b.
    boolean
      (tlv b (context_tag 0 true)
        (write_each (λ id c. visible_string c visible_string_tag id) resp.identifiers))
      (context_tag 1 false) resp.more_follows

abbrev pub more_or_true : Option Bytes → MmsResult Bool
more_or_true none = ok true
more_or_true (some c) = from_ber (decode_bool c)

unfoldable pub decode_response : Std → Tlv → MmsResult GetNameListResponse
decode_response s service_tlv = do
  content ← expect_service service_tlv get_name_list
  (list, r) ← from_ber (expect (new content) (context_tag 0 true))
  identifiers ← read_each (λ lr. read_text s lr visible_string_tag) list
  (more, _) ← from_ber (read_if r (context_tag 1 false))
  more_follows ← more_or_true more
  ok (record { identifiers = identifiers; more_follows = more_follows })
