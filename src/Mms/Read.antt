-- ===== src/Mms/Read.antt =====
-- crates/iec61850-mms/src/mms/read.rs: requests and responses of the service Read.
pub mod RoundTrip
pub mod Results
use iec_61850_studio.Base.{ℕ, List, [], ◌∷◌, Option, Bool, true, false, if◌then◌else◌}
use iec_61850_studio.Base.Result.{ok, err, ◌>>=◌}
use iec_61850_studio.Base.Words.{Bytes}
use iec_61850_studio.Ber.Error.{Tag}
use iec_61850_studio.Ber.Tag.{tag_eq}
use iec_61850_studio.Ber.Primitives.{decode_integer}
use iec_61850_studio.Ber.Reader.{Tlv, BerReader, new, read_tlv, expect, read_if}
use iec_61850_studio.Ber.Writer.{BerWriter, tlv, integer}
use iec_61850_studio.Ber.Nested.{write_each}
use iec_61850_studio.Ber.Std.{Std}
use iec_61850_studio.Ber.Data
use iec_61850_studio.Ber.Data.{MmsData}
use iec_61850_studio.Transport.Error.{
  DataAccessError, MmsResult, data_access, unexpected_pdu, from_code, to_code,
}
use iec_61850_studio.Mms.Loop.{read_each}
use iec_61850_studio.Mms.Pdu.{
  context_tag, from_ber, expect_service, parse_list_of_variable, read_domain_specific,
  write_domain_specific, write_variable,
}

-- `service::READ`
abbrev pub read_service : Tag
read_service = context_tag 4 true

pub data AccessResult : Type 0 where
  success : MmsData → AccessResult
  failure : DataAccessError → AccessResult

unfoldable pub into_data : AccessResult → MmsResult MmsData
into_data (success d) = ok d
into_data (failure e) = err (data_access e)

unfoldable pub write_request : Bytes → Bytes → BerWriter → BerWriter
write_request domain_id item_id w = tlv w read_service λ b.
    tlv b (context_tag 1 true) λ c. tlv c (context_tag 0 true) (write_variable (domain_id, item_id))

unfoldable pub write_data_set_request : Bytes → Bytes → BerWriter → BerWriter
write_data_set_request domain_id list_name w = tlv w read_service λ b.
    tlv b (context_tag 1 true)
      λ c. tlv c (context_tag 1 true) (write_domain_specific domain_id list_name)

pub data ReadTarget : Type 0 where
  variables : List (Bytes × Bytes) → ReadTarget
  named_list : Bytes → Bytes → ReadTarget

-- The match on the choice of the access specification.
abbrev pub target_of : Std → Tlv → MmsResult ReadTarget
target_of s choice =
    if tag_eq choice.tag (context_tag 0 true)
    then (do vs ← parse_list_of_variable s choice.content; ok (variables vs))
    else if tag_eq choice.tag (context_tag 1 true)
    then (do
      (domain, name) ← read_domain_specific s (new choice.content)
      ok (named_list domain name))
    else err unexpected_pdu

unfoldable pub decode_request : Std → Tlv → MmsResult ReadTarget
decode_request s service_tlv = do
  content ← expect_service service_tlv read_service
  (_, r) ← from_ber (read_if (new content) (context_tag 0 false))
  (vas, _) ← from_ber (expect r (context_tag 1 true))
  (choice, _) ← from_ber (read_tlv (new vas))
  target_of s choice

abbrev pub write_result : Std → AccessResult → BerWriter → BerWriter
write_result s (success d) w = Data.encode s d w
write_result s (failure e) w = integer w (context_tag 0 false) (to_code e)

unfoldable pub encode_response : Std → List AccessResult → BerWriter → BerWriter
encode_response s results w =
    tlv w read_service λ b. tlv b (context_tag 1 true) (write_each (write_result s) results)

abbrev pub result_of : Std → Tlv → MmsResult AccessResult
result_of s t =
    if tag_eq t.tag (context_tag 0 false)
    then (do code ← from_ber (decode_integer t.content); ok (failure (from_code code)))
    else (do d ← from_ber (Data.decode s t); ok (success d))

-- One round of the loop over the results.
unfoldable pub read_result : Std → BerReader → MmsResult (AccessResult × BerReader)
read_result s lr = do (t, lr') ← from_ber (read_tlv lr); result ← result_of s t; ok (result, lr')

unfoldable pub decode_response : Std → Tlv → MmsResult (List AccessResult)
decode_response s service_tlv = do
  content ← expect_service service_tlv read_service
  (_, r) ← from_ber (read_if (new content) (context_tag 0 true))
  (list, _) ← from_ber (expect r (context_tag 1 true))
  read_each (read_result s) list
