-- ===== src/Mms/Write/RoundTrip.antt =====
-- Requests and responses of Write arrive as they were sent.
use iec_61850_studio.Base.{
  ◌<◌, ◌≤◌, ◌^◌, List, [], ◌∷◌, ◌++◌, true, false, length, All, ◌≡◌, refl, arith,
}
use iec_61850_studio.Base.Result.{ok}
use iec_61850_studio.Base.Words.{Bytes}
use iec_61850_studio.Ber.Tag.{tag_eq}
use iec_61850_studio.Ber.Primitives.{encode_integer}
use iec_61850_studio.Ber.Primitives.Integer.{decode_integer-encode_integer}
use iec_61850_studio.Ber.Std.{Std, IsIeee}
use iec_61850_studio.Ber.Data.{MmsData}
use iec_61850_studio.Ber.Data.Shape.{tag_of, content_of, encode-append}
use iec_61850_studio.Ber.Data.RoundTrip.{decode-content_of}
use iec_61850_studio.Ber.Reader.{BerReader, new}
use iec_61850_studio.Ber.Writer.Laws.{tlv_octets}
use iec_61850_studio.Ber.Fields.{Stands, Stands-fits}
use iec_61850_studio.Ber.Nested.{
  Appends, Appends-then, Appends-tlv, Appends-integer, Appends-null, Appends-each, Appends-last,
  each_octets, expect_into, read_tlv_into, tlv_octets_some,
}
use iec_61850_studio.Transport.Error.{to_code, IsError, from_code-to_code}
use iec_61850_studio.Mms.Loop.{read_each-octets}
use iec_61850_studio.Mms.Pdu.{context_tag, expect_service}
use iec_61850_studio.Mms.Pdu.Variables.{
  Variable, IsVariable, variable_octets, write_variable-Appends, parse_list_of_variable-octets,
}
use iec_61850_studio.Mms.Read.Results.{IsValue, tag_of-ne-failure}
use iec_61850_studio.Mms.Server.Store.{WriteResult, success, failure}
use iec_61850_studio.Mms.Write.{
  write_service, write_request, read_value, decode_request, write_result, encode_response,
  read_result, decode_response,
}

abbrev value_octets : Std → MmsData → Bytes
value_octets s d = tlv_octets (tag_of d) (content_of s d)

abbrev pub request_octets : Std → Variable → MmsData → Bytes
request_octets s v value =
    tlv_octets (context_tag 0 true) (each_octets variable_octets (v ∷ []))
    ++ (tlv_octets (context_tag 0 true) (each_octets (value_octets s) (value ∷ [])) ++ [])

pub write_request-Appends :
    (s : Std) (domain item : Bytes) (value : MmsData)
    → Appends
        (write_request s domain item value)
        (tlv_octets write_service (request_octets s (domain, item) value))
unfolding write_request
write_request-Appends s domain item value = Appends-tlv write_service _ _ (
    Appends-then _ _ _ _
      (Appends-tlv (context_tag 0 true) _ _
        (Appends-last _ _ (write_variable-Appends (domain, item))))
      (Appends-last _ _
        (Appends-tlv (context_tag 0 true) _ _ (Appends-last _ _ (encode-append s value)))))

read_value_step :
    (s : Std)
    → IsIeee s
    → (d : MmsData) (r : BerReader) (rest : Bytes) → IsValue s d
    → Stands r (value_octets s d ++ rest)
    → (r' : BerReader) × (read_value s r ≡ ok (d, r')) × Stands r' rest
unfolding read_value
read_value_step s ieee d r rest (h, nests) stands =
    let (_, number) = tag_of-ne-failure d in
    let (r', e, stands', _) = read_tlv_into r (tag_of d) (content_of s d) rest number stands in
    (
      r',
      rw
          (
            e,
            decode-content_of s d ieee h nests
                (Stands-fits r (tag_of d) (content_of s d) rest stands),
          )
          refl,
      stands',
    )

-- For a library that keeps `IsIeee`, a variable with texts for its names and a value of the Rust type that nests at most 32
-- levels: the server reads from the request the variable and the value.
pub decode_request-write_request :
    (s : Std) (v : Variable) (value : MmsData)
    → IsIeee s
    → IsVariable s v
    → IsValue s value
    → length (request_octets s v value) < 2 ^ 64
    → decode_request s (record { tag = write_service; content = request_octets s v value })
      ≡ ok (v ∷ [], value ∷ [])
unfolding decode_request expect_service tag_eq
decode_request-write_request s v value ieee h hv small =
    let names : Bytes = each_octets variable_octets (v ∷ []) in
    let values : Bytes = each_octets (value_octets s) (value ∷ []) in
    let (r₁, e₀, s₁, inside) =
      expect_into (new (request_octets s v value)) (context_tag 0 true) names
        (tlv_octets (context_tag 0 true) values ++ []) (omega arith) ([], refl, small) in
    let e₁ = parse_list_of_variable-octets s (v ∷ []) (h, tt) inside in
    let (_, e₂, _, inside') = expect_into r₁ (context_tag 0 true) values [] (omega arith) s₁ in
    let e₃ =
      read_each-octets (read_value s) (value_octets s) (IsValue s) (read_value_step s ieee)
        (λ d. tlv_octets_some (tag_of d) (content_of s d)) (value ∷ []) (hv, tt) inside' in
    rw (e₀, e₁, e₂, e₃) refl

abbrev pub IsWritten : WriteResult → Type 0
IsWritten success = Unit {0}
IsWritten (failure e) = IsError e

abbrev pub result_octets : WriteResult → Bytes
result_octets success = tlv_octets (context_tag 1 false) []
result_octets (failure e) = tlv_octets (context_tag 0 false) (encode_integer (to_code e))

write_result-Appends : (a : WriteResult) → Appends (write_result a) (result_octets a)
write_result-Appends success = Appends-null (context_tag 1 false)
write_result-Appends (failure e) = Appends-integer (context_tag 0 false) (to_code e)

result_octets_some : (a : WriteResult) → 1 ≤ length (result_octets a)
result_octets_some success = tlv_octets_some (context_tag 1 false) []
result_octets_some (failure e) = tlv_octets_some (context_tag 0 false) (encode_integer (to_code e))

pub encode_response-Appends :
    (results : List WriteResult)
    → Appends
        (encode_response results)
        (tlv_octets write_service (each_octets result_octets results))
unfolding encode_response
encode_response-Appends results =
    Appends-tlv write_service _ _
      (Appends-each write_result result_octets write_result-Appends results)

read_result_step :
    (a : WriteResult) (r : BerReader) (rest : Bytes)
    → IsWritten a
    → Stands r (result_octets a ++ rest)
    → (r' : BerReader) × (read_result r ≡ ok (a, r')) × Stands r' rest
unfolding read_result tag_eq
read_result_step success r rest h stands =
    let (r', e, stands', _) = read_tlv_into r (context_tag 1 false) [] rest (omega arith) stands in
    (r', rw e refl, stands')
read_result_step (failure x) r rest h stands =
    let (named, small) = from_code-to_code x h in
    let code : Bytes = encode_integer (to_code x) in
    let (r', e, stands', _) =
      read_tlv_into r (context_tag 0 false) code rest (omega arith) stands in
    (r', rw (e, decode_integer-encode_integer (to_code x) small, named) refl, stands')

-- For results whose errors the program makes: the client reads from a response the results that the server wrote, in their order.
pub decode_response-encode_response :
    (results : List WriteResult)
    → All IsWritten results
    → length (each_octets result_octets results) < 2 ^ 64
    → decode_response (record { tag = write_service; content = each_octets result_octets results })
      ≡ ok results
unfolding decode_response expect_service tag_eq
decode_response-encode_response results h small =
    read_each-octets read_result result_octets IsWritten read_result_step result_octets_some results
      h ([], refl, small)
