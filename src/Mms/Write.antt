-- ===== src/Mms/Write.antt =====
-- crates/iec61850-mms/src/mms/write.rs: requests and responses of the service Write.
pub mod RoundTrip
use iec_61850_studio.Base.{ℕ, List, [], ◌∷◌, Bool, true, false, if◌then◌else◌}
use iec_61850_studio.Base.Result.{ok, err, ◌>>=◌}
use iec_61850_studio.Base.Words.{Bytes}
use iec_61850_studio.Ber.Error.{Tag}
use iec_61850_studio.Ber.Tag.{tag_eq}
use iec_61850_studio.Ber.Primitives.{decode_integer}
use iec_61850_studio.Ber.Reader.{Tlv, BerReader, new, read_tlv, expect}
use iec_61850_studio.Ber.Writer.{BerWriter, tlv, integer, null}
use iec_61850_studio.Ber.Nested.{write_each}
use iec_61850_studio.Ber.Std.{Std}
use iec_61850_studio.Ber.Data
use iec_61850_studio.Ber.Data.{MmsData}
use iec_61850_studio.Transport.Error.{MmsResult, data_access, unexpected_pdu, from_code, to_code}
use iec_61850_studio.Mms.Loop.{read_each}
use iec_61850_studio.Mms.Pdu.{
  context_tag, from_ber, expect_service, parse_list_of_variable, write_variable,
}
use iec_61850_studio.Mms.Server.Store.{WriteResult, success, failure}

-- `service::WRITE`
abbrev pub write_service : Tag
write_service = context_tag 5 true

unfoldable pub into_result : WriteResult → MmsResult (Unit {0})
into_result success = ok tt
into_result (failure e) = err (data_access e)

unfoldable pub write_request : Std → Bytes → Bytes → MmsData → BerWriter → BerWriter
write_request s domain_id item_id value w = tlv w write_service λ b.
    tlv (tlv b (context_tag 0 true) (write_variable (domain_id, item_id))) (context_tag 0 true)
      (Data.encode s value)

-- One round of the loop over the values.
unfoldable pub read_value : Std → BerReader → MmsResult (MmsData × BerReader)
read_value s dr = do (t, dr') ← from_ber (read_tlv dr); d ← from_ber (Data.decode s t); ok (d, dr')

unfoldable pub decode_request : Std → Tlv → MmsResult (List (Bytes × Bytes) × List MmsData)
decode_request s service_tlv = do
  content ← expect_service service_tlv write_service
  (lov, r) ← from_ber (expect (new content) (context_tag 0 true))
  names ← parse_list_of_variable s lov
  (lod, _) ← from_ber (expect r (context_tag 0 true))
  values ← read_each (read_value s) lod
  ok (names, values)

abbrev pub write_result : WriteResult → BerWriter → BerWriter
write_result success w = null w (context_tag 1 false)
write_result (failure e) w = integer w (context_tag 0 false) (to_code e)

unfoldable pub encode_response : List WriteResult → BerWriter → BerWriter
encode_response results w = tlv w write_service (write_each write_result results)

abbrev pub result_of : Tlv → MmsResult WriteResult
result_of t =
    if tag_eq t.tag (context_tag 0 false)
    then (do code ← from_ber (decode_integer t.content); ok (failure (from_code code)))
    else if tag_eq t.tag (context_tag 1 false)
    then ok success
    else err unexpected_pdu

-- One round of the loop over the results.
unfoldable pub read_result : BerReader → MmsResult (WriteResult × BerReader)
read_result r = do (t, r') ← from_ber (read_tlv r); result ← result_of t; ok (result, r')

unfoldable pub decode_response : Tlv → MmsResult (List WriteResult)
decode_response service_tlv = do
  content ← expect_service service_tlv write_service
  read_each read_result content
