-- ===== src/Mms/Server/Answers.antt =====
-- crates/iec61850-mms/src/server.rs: the octets of the server's answers to requests that only read or name things.
use iec_61850_studio.Base.{ℕ, Bool}
use iec_61850_studio.Base.Result.{ok, err}
use iec_61850_studio.Base.Words.{Bytes}
use iec_61850_studio.Ber.Reader.{Tlv}
use iec_61850_studio.Ber.Std.{Std}
use iec_61850_studio.Ber.Writer.{integer}
use iec_61850_studio.Transport.Error.{MmsResult}
use iec_61850_studio.Mms.Pdu.{context_tag, encode_confirmed_response, encode_confirmed_error}
use iec_61850_studio.Mms.NameList.{GetNameListRequest, decode_request, encode_response}
use iec_61850_studio.Mms.Server.Namespace.{Namespace, build_name_list}

unfoldable pub encode_error : ℕ → Bytes
encode_error invoke = encode_confirmed_error invoke (λ w. integer w (context_tag 0 Bool.false) 0)

abbrev pub name_list_answer : Namespace → ℕ → MmsResult GetNameListRequest → Bytes
name_list_answer model invoke (ok req) =
    encode_confirmed_response invoke (encode_response (build_name_list model req))
name_list_answer model invoke (err _) = encode_error invoke

-- The answer to a service with the tag of GetNameList.
unfoldable pub handle_get_name_list : Std → Namespace → ℕ → Tlv → Bytes
handle_get_name_list s model invoke service =
    name_list_answer model invoke (decode_request s service)
