-- ===== src/Mms/Pdu.antt =====
-- crates/iec61850-mms/src/mms/pdu.rs: the wrapping of MMS PDUs, and what requests and responses share. An `i64` is its
-- bit pattern.
pub mod Wrapping
pub mod Variables
use iec_61850_studio.Base.{
  ℕ, zero, suc, ◌^◌, List, [], ◌∷◌, Option, none, some, Bool, true, false, length, ltb, ◌==◌, not,
  if◌then◌else◌,
}
use iec_61850_studio.Base.Result.{Result, ok, err, ◌>>=◌, map_err}
use iec_61850_studio.Base.Words.{Bytes}
use iec_61850_studio.Ber.Error.{Tag, BerError, universal, context, bad_integer}
use iec_61850_studio.Ber.Tag.{tag_eq, new as new_tag}
use iec_61850_studio.Ber.Primitives.{decode_integer, decode_visible_string}
use iec_61850_studio.Ber.Reader.{Tlv, BerReader, new, reader, read_tlv, expect, read_if, is_empty}
use iec_61850_studio.Ber.Writer.{BerWriter, tlv, integer, visible_string, sequence}
use iec_61850_studio.Ber.Std.{Std}
use iec_61850_studio.Mms.Loop.{read_each}
use iec_61850_studio.Transport.Error.{
  MmsError, MmsResult, ber, service_reject, unexpected_pdu, invoke_id_mismatch, out_of_fuel,
}

-- `universal::INTEGER` and `universal::VISIBLE_STRING`
abbrev pub integer_tag : Tag
integer_tag = new_tag universal false 2

abbrev pub visible_string_tag : Tag
visible_string_tag = new_tag universal false 0x1A

-- `Tag::context(number, constructed)`
abbrev pub context_tag : ℕ → Bool → Tag
context_tag number constructed = new_tag context constructed number

-- The tags of `mmspdu`.
abbrev pub confirmed_request : Tag
confirmed_request = context_tag 0 true

abbrev pub confirmed_response : Tag
confirmed_response = context_tag 1 true

abbrev pub confirmed_error : Tag
confirmed_error = context_tag 2 true

abbrev pub unconfirmed : Tag
unconfirmed = context_tag 3 true

abbrev pub reject : Tag
reject = context_tag 4 true

abbrev pub initiate_request : Tag
initiate_request = context_tag 8 true

abbrev pub conclude_request : Tag
conclude_request = context_tag 11 true

abbrev pub from_ber : {A : Type 0} → Result BerError A → MmsResult A
from_ber m = map_err ber m

-- The three encoders differ in the outer tag.
abbrev pub encode_confirmed : Tag → ℕ → (BerWriter → BerWriter) → Bytes
encode_confirmed tag invoke_id service = tlv [] tag (λ w. service (integer w integer_tag invoke_id))

unfoldable pub encode_confirmed_request : ℕ → (BerWriter → BerWriter) → Bytes
encode_confirmed_request invoke_id service = encode_confirmed confirmed_request invoke_id service

unfoldable pub encode_confirmed_response : ℕ → (BerWriter → BerWriter) → Bytes
encode_confirmed_response invoke_id service = encode_confirmed confirmed_response invoke_id service

unfoldable pub encode_confirmed_error : ℕ → (BerWriter → BerWriter) → Bytes
encode_confirmed_error invoke_id service_error =
    encode_confirmed confirmed_error invoke_id service_error

-- `u32::try_from` of an `i64`, whose negative numbers are the patterns from 2 ^ 63 on.
abbrev pub try_u32 : ℕ → Option ℕ
try_u32 v = if ltb v (2 ^ 32) then some v else none

abbrev pub as_u32 : Option ℕ → MmsResult ℕ
as_u32 none = err (ber bad_integer)
as_u32 (some v) = ok v

unfoldable pub read_unsigned_integer : BerReader → MmsResult (ℕ × BerReader)
read_unsigned_integer r = do
  (content, r') ← from_ber (expect r integer_tag)
  v ← from_ber (decode_integer content)
  u ← as_u32 (try_u32 v)
  ok (u, r')

-- `invokeID` and the TLV of the service.
abbrev pub read_invoked : BerReader → MmsResult (ℕ × Tlv)
read_invoked r = do
  (invoke_id, r') ← read_unsigned_integer r
  (service, _) ← from_ber (read_tlv r')
  ok (invoke_id, service)

unfoldable pub parse_confirmed_request : Bytes → MmsResult (ℕ × Tlv)
parse_confirmed_request pdu = do
  (outer, _) ← from_ber (read_tlv (new pdu))
  (if not (tag_eq outer.tag confirmed_request)
      then err unexpected_pdu
      else read_invoked (reader outer))

unfoldable pub parse_confirmed_response : Bytes → MmsResult (ℕ × Tlv)
parse_confirmed_response pdu = do
  (outer, _) ← from_ber (read_tlv (new pdu))
  (if tag_eq outer.tag confirmed_response
      then read_invoked (reader outer)
      else if tag_eq outer.tag confirmed_error
      then err service_reject
      else if tag_eq outer.tag reject
      then err service_reject
      else err unexpected_pdu)

pub data PduKind : Type 0 where
  confirmed_request_kind confirmed_response_kind confirmed_error_kind reject_kind : PduKind
  unconfirmed_kind initiate_request_kind conclude_request_kind other_kind : PduKind

abbrev pub request_kind : Tag → PduKind
request_kind tag =
    if tag_eq tag confirmed_request
    then confirmed_request_kind
    else if tag_eq tag confirmed_response
    then confirmed_response_kind
    else if tag_eq tag confirmed_error
    then confirmed_error_kind
    else if tag_eq tag reject
    then reject_kind
    else if tag_eq tag initiate_request
    then initiate_request_kind
    else if tag_eq tag conclude_request
    then conclude_request_kind
    else other_kind

unfoldable pub peek_request_kind : Bytes → MmsResult PduKind
peek_request_kind pdu = do (outer, _) ← from_ber (read_tlv (new pdu)); ok (request_kind outer.tag)

-- `.ok()`
abbrev pub ok_option : {A : Type 0} → MmsResult (A × BerReader) → Option A
ok_option (ok (a, _)) = some a
ok_option (err _) = none

-- The identifier of a reject PDU, where it has one that fits.
abbrev pub rejected_id : Result BerError ℕ → Option ℕ
rejected_id (ok v) = try_u32 v
rejected_id (err _) = none

abbrev pub rejected : Option Bytes → Option ℕ
rejected none = none
rejected (some c) = rejected_id (decode_integer c)

-- The match that gives the kind, and where the identifier is looked for.
abbrev pub invoked : Tag → BerReader → MmsResult (PduKind × Option ℕ)
invoked tag inner =
    if tag_eq tag confirmed_response
    then ok (confirmed_response_kind, ok_option (read_unsigned_integer inner))
    else if tag_eq tag confirmed_error
    then ok (confirmed_error_kind, ok_option (read_unsigned_integer inner))
    else if tag_eq tag reject
    then (do
      (original, _) ← from_ber (read_if inner (context_tag 0 false))
      ok (reject_kind, rejected original))
    else if tag_eq tag confirmed_request
    then ok (confirmed_request_kind, ok_option (read_unsigned_integer inner))
    else if tag_eq tag unconfirmed
    then ok (unconfirmed_kind, none)
    else ok (other_kind, none)

unfoldable pub peek_invoke_and_kind : Bytes → MmsResult (PduKind × Option ℕ)
peek_invoke_and_kind pdu = do
  (outer, _) ← from_ber (read_tlv (new pdu))
  invoked outer.tag (reader outer)

unfoldable pub parse_unconfirmed : Bytes → MmsResult Tlv
parse_unconfirmed pdu = do
  (outer, _) ← from_ber (read_tlv (new pdu))
  (if not (tag_eq outer.tag unconfirmed)
      then err unexpected_pdu
      else (do (service, _) ← from_ber (read_tlv (reader outer)); ok service))

unfoldable pub check_invoke_id : ℕ → ℕ → MmsResult (Unit {0})
check_invoke_id expected got =
    if expected == got then ok tt else err (invoke_id_mismatch expected got)

-- `prim::decode_visible_string(r.expect(tag)?)?`
abbrev pub read_text : Std → BerReader → Tag → MmsResult (Bytes × BerReader)
read_text s r tag = do
  (content, r') ← from_ber (expect r tag)
  text ← from_ber (decode_visible_string s.utf8 content)
  ok (text, r')

-- A `domain-specific` name: the domain and the item.
unfoldable pub read_domain_specific : Std → BerReader → MmsResult (Bytes × Bytes)
read_domain_specific s r = do
  (ds, _) ← from_ber (expect r (context_tag 1 true))
  (domain, dr) ← read_text s (new ds) visible_string_tag
  (item, _) ← read_text s dr visible_string_tag
  ok (domain, item)

-- One round of the loop: the SEQUENCE around a variable, its name, and the name's choice.
unfoldable pub read_variable : Std → BerReader → MmsResult ((Bytes × Bytes) × BerReader)
read_variable s lr = do
  (seq, lr') ← from_ber (read_tlv lr)
  (name, _) ← from_ber (expect (new seq.content) (context_tag 0 true))
  variable ← read_domain_specific s (new name)
  ok (variable, lr')

unfoldable pub parse_list_of_variable : Std → Bytes → MmsResult (List (Bytes × Bytes))
parse_list_of_variable s content = read_each (read_variable s) content

-- `domain-specific [1] { domainId, itemId }`
abbrev pub write_domain_specific : Bytes → Bytes → BerWriter → BerWriter
write_domain_specific domain item w =
    tlv w (context_tag 1 true)
      (λ b. visible_string (visible_string b visible_string_tag domain) visible_string_tag item)

-- A variable as requests write it.
abbrev pub write_variable : (Bytes × Bytes) → BerWriter → BerWriter
write_variable (domain, item) w =
    sequence w (λ b. tlv b (context_tag 0 true) (write_domain_specific domain item))

unfoldable pub expect_service : Tlv → Tag → MmsResult Bytes
expect_service service tag =
    if not (tag_eq service.tag tag) then err unexpected_pdu else ok service.content
