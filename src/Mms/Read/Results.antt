-- ===== src/Mms/Read/Results.antt =====
-- The results of Read arrive as they were sent: values and failures.
use iec_61850_studio.Base.{
  ◌<◌, ◌≤◌, ◌^◌, List, [], ◌++◌, none, true, false, length, All, ◌≡◌, refl, arith, inr,
}
use iec_61850_studio.Base.Result.{ok}
use iec_61850_studio.Base.Words.{Bytes}
use iec_61850_studio.Ber.Tag.{tag_eq}
use iec_61850_studio.Ber.Primitives.{encode_integer}
use iec_61850_studio.Ber.Primitives.Integer.{decode_integer-encode_integer}
use iec_61850_studio.Ber.Std.{Std, IsIeee}
use iec_61850_studio.Ber.Data.{
  MmsData, bool, int, uint, float, bit_string, octets, visible, mms_string, utc, binary_time,
  structure, array,
}
use iec_61850_studio.Ber.Data.Shape.{tag_of, content_of, IsEncodable, depth, encode-append}
use iec_61850_studio.Ber.Data.RoundTrip.{decode-content_of}
use iec_61850_studio.Ber.Reader.{BerReader, new}
use iec_61850_studio.Ber.Writer.Laws.{tlv_octets}
use iec_61850_studio.Ber.Fields.{Stands, Stands-fits, read_if_step}
use iec_61850_studio.Ber.Nested.{
  Appends, Appends-tlv, Appends-integer, Appends-each, each_octets, expect_into, read_tlv_into,
  Stands-last, tlv_octets_some,
}
use iec_61850_studio.Transport.Error.{to_code, IsError, from_code-to_code}
use iec_61850_studio.Mms.Loop.{read_each-octets}
use iec_61850_studio.Mms.Pdu.{context_tag, expect_service}
use iec_61850_studio.Mms.Read.{
  AccessResult, success, failure, read_service, write_result, encode_response, read_result,
  decode_response,
}

-- A value that is one of the Rust type and nests at most 32 levels.
abbrev pub IsValue : Std → MmsData → Type 0
IsValue s d = IsEncodable s d × (depth d ≤ 32)

abbrev pub IsResult : Std → AccessResult → Type 0
IsResult s (success d) = IsValue s d
IsResult s (failure e) = IsError e

abbrev pub result_octets : Std → AccessResult → Bytes
result_octets s (success d) = tlv_octets (tag_of d) (content_of s d)
result_octets s (failure e) = tlv_octets (context_tag 0 false) (encode_integer (to_code e))

write_result-Appends : (s : Std) (a : AccessResult) → Appends (write_result s a) (result_octets s a)
write_result-Appends s (success d) = encode-append s d
write_result-Appends s (failure e) = Appends-integer (context_tag 0 false) (to_code e)

-- No value has the tag of a failure.
pub tag_of-ne-failure :
    (d : MmsData) → (tag_eq (tag_of d) (context_tag 0 false) ≡ false) × ((tag_of d).number < 2 ^ 32)
unfolding tag_eq
tag_of-ne-failure (bool v) = (refl, omega arith)
tag_of-ne-failure (int v) = (refl, omega arith)
tag_of-ne-failure (uint v) = (refl, omega arith)
tag_of-ne-failure (float v) = (refl, omega arith)
tag_of-ne-failure (bit_string v) = (refl, omega arith)
tag_of-ne-failure (octets v) = (refl, omega arith)
tag_of-ne-failure (visible v) = (refl, omega arith)
tag_of-ne-failure (mms_string v) = (refl, omega arith)
tag_of-ne-failure (utc v) = (refl, omega arith)
tag_of-ne-failure (binary_time v) = (refl, omega arith)
tag_of-ne-failure (structure v) = (refl, omega arith)
tag_of-ne-failure (array v) = (refl, omega arith)

read_result_step :
    (s : Std)
    → IsIeee s
    → (a : AccessResult) (r : BerReader) (rest : Bytes) → IsResult s a
    → Stands r (result_octets s a ++ rest)
    → (r' : BerReader) × (read_result s r ≡ ok (a, r')) × Stands r' rest
unfolding read_result tag_eq
read_result_step s ieee (success d) r rest (h, nests) stands =
    let (differs, number) = tag_of-ne-failure d in
    let (r', e, stands', _) = read_tlv_into r (tag_of d) (content_of s d) rest number stands in
    (
      r',
      rw
          (
            e,
            differs,
            decode-content_of s d ieee h nests
                (Stands-fits r (tag_of d) (content_of s d) rest stands),
          )
          refl,
      stands',
    )
read_result_step s ieee (failure x) r rest h stands =
    let (named, small) = from_code-to_code x h in
    let code : Bytes = encode_integer (to_code x) in
    let (r', e, stands', _) =
      read_tlv_into r (context_tag 0 false) code rest (omega arith) stands in
    (r', rw (e, decode_integer-encode_integer (to_code x) small, named) refl, stands')

result_octets_some : (s : Std) (a : AccessResult) → 1 ≤ length (result_octets s a)
result_octets_some s (success d) = tlv_octets_some (tag_of d) (content_of s d)
result_octets_some s (failure e) =
    tlv_octets_some (context_tag 0 false) (encode_integer (to_code e))

abbrev pub response_octets : Std → List AccessResult → Bytes
response_octets s results = tlv_octets (context_tag 1 true) (each_octets (result_octets s) results)

pub encode_response-Appends :
    (s : Std) (results : List AccessResult)
    → Appends (encode_response s results) (tlv_octets read_service (response_octets s results))
unfolding encode_response
encode_response-Appends s results = Appends-tlv read_service _ _ (
    Appends-tlv (context_tag 1 true) _ _
      (Appends-each (write_result s) (result_octets s) (write_result-Appends s) results))

-- For a library that keeps `IsIeee` and results whose values are of the Rust type and nest at most 32 levels and whose errors the program makes: the client reads from a
-- response the results that the server wrote, values and failures in their order.
pub decode_response-encode_response :
    (s : Std) (results : List AccessResult)
    → IsIeee s
    → All (IsResult s) results
    → length (response_octets s results) < 2 ^ 64
    → decode_response s (record { tag = read_service; content = response_octets s results })
      ≡ ok results
unfolding decode_response expect_service tag_eq
decode_response-encode_response s results ieee h small =
    let list : Bytes = each_octets (result_octets s) results in
    let whole : Bytes = response_octets s results in
    let stands = Stands-last (new whole) (context_tag 1 true) list ([], refl, small) in
    let (r₁, e₀, s₁) =
      read_if_step (new whole) (context_tag 0 true) none (whole ++ []) (omega arith)
        (inr (context_tag 1 true, list, [], refl, refl, omega arith)) stands in
    let (_, e₁, _, inside) = expect_into r₁ (context_tag 1 true) list [] (omega arith) s₁ in
    let e₂ =
      read_each-octets (read_result s) (result_octets s) (IsResult s) (read_result_step s ieee)
        (result_octets_some s) results h inside in
    rw (e₀, e₁) e₂
