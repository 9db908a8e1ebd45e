-- ===== src/Mms/Carried/Delivery.antt =====
-- A service inside a confirmed PDU.
use iec_61850_studio.Base.{ℕ, ◌<◌, ◌^◌, length, ◌≡◌}
use iec_61850_studio.Base.Result.{ok}
use iec_61850_studio.Ber.Reader.{Tlv}
use iec_61850_studio.Ber.Writer.{BerWriter}
use iec_61850_studio.Mms.Pdu.{
  encode_confirmed_request, encode_confirmed_response, parse_confirmed_request,
  parse_confirmed_response,
}
use iec_61850_studio.Mms.Pdu.Wrapping.{
  parse_confirmed_request-encode, parse_confirmed_response-encode,
}
use iec_61850_studio.Mms.Carried.{Carries}
use iec_61850_studio.Transport.Error.{MmsResult}

-- Whatever a service writes that its decoder reads, the other side finds in the confirmed request, or response, around it,
-- with the invoke id. The id is a `u32` and each PDU is below 2 ^ 64 octets.
pub confirmed-Carries :
    {A : Type 0} (write : BerWriter → BerWriter) (decode : Tlv → MmsResult A) (a : A)
    (invoke_id : ℕ)
    → Carries write decode a
    → invoke_id < 2 ^ 32
    → length (encode_confirmed_request invoke_id write) < 2 ^ 64
    → length (encode_confirmed_response invoke_id write) < 2 ^ 64
    → (service : Tlv) × (parse_confirmed_request (encode_confirmed_request invoke_id write)
        ≡ ok (invoke_id, service))
      × (parse_confirmed_response (encode_confirmed_response invoke_id write)
          ≡ ok (invoke_id, service))
      × (decode service ≡ ok a)
confirmed-Carries write decode a invoke_id (tag, content, number, appends, decoded) id asked
      answered =
    (
      record { tag = tag; content = content },
      parse_confirmed_request-encode invoke_id tag content write appends id number asked,
      parse_confirmed_response-encode invoke_id tag content write appends id number answered,
      decoded,
    )
