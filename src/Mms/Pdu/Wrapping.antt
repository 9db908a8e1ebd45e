-- ===== src/Mms/Pdu/Wrapping.antt =====
-- A confirmed PDU carries its identifier and its service to the other side.
use iec_61850_studio.Base.{
  ℕ, ◌^◌, ◌<◌, ◌≤◌, [], ◌++◌, some, length, ◌≡◌, refl, ap, arith, ltb-true, length-append,
}
use iec_61850_studio.Base.Result.{ok}
use iec_61850_studio.Base.Words.{Bytes}
use iec_61850_studio.Ber.Error.{Tag}
use iec_61850_studio.Ber.Tag.{tag_eq}
use iec_61850_studio.Ber.Primitives.{encode_integer}
use iec_61850_studio.Ber.Primitives.Integer.{decode_integer-encode_integer}
use iec_61850_studio.Ber.Reader.{BerReader, new, read_tlv}
use iec_61850_studio.Ber.Writer.{BerWriter, integer}
use iec_61850_studio.Ber.Writer.Laws.{tlv_octets, content-le-tlv_octets}
use iec_61850_studio.Ber.Fields.{Stands}
use iec_61850_studio.Ber.Nested.{
  Appends, Appends-then, Appends-tlv, Appends-integer, Appends-last, expect_into, read_tlv_into,
  Stands-last,
}
use iec_61850_studio.Mms.Pdu.{
  integer_tag, confirmed_request, confirmed_response, confirmed_error, encode_confirmed,
  encode_confirmed_request, encode_confirmed_response, encode_confirmed_error,
  read_unsigned_integer, read_invoked, parse_confirmed_request, parse_confirmed_response,
  peek_invoke_and_kind, confirmed_response_kind, confirmed_error_kind,
}

pub read_unsigned_step :
    (r : BerReader) (v : ℕ) (rest : Bytes)
    → v < 2 ^ 32
    → Stands r (tlv_octets integer_tag (encode_integer v) ++ rest)
    → (r' : BerReader) × (read_unsigned_integer r ≡ ok (v, r')) × Stands r' rest
unfolding read_unsigned_integer
read_unsigned_step r v rest small stands =
    let (r', e, stands', _) =
      expect_into r integer_tag (encode_integer v) rest (omega arith) stands in
    (
      r',
      rw (e, decode_integer-encode_integer v (omega (arith, small)), ltb-true v (2 ^ 32) small)
          refl,
      stands',
    )

-- The content of a confirmed PDU.
abbrev pub confirmed_octets : ℕ → Tag → Bytes → Bytes
confirmed_octets invoke_id tag content =
    tlv_octets integer_tag (encode_integer invoke_id) ++ (tlv_octets tag content ++ [])

module _ (invoke_id : ℕ) (tag : Tag) (content : Bytes) (service : BerWriter → BerWriter)
    (writes : Appends service (tlv_octets tag content)) where
  encode_confirmed-octets :
      (outer : Tag)
      → encode_confirmed outer invoke_id service
        ≡ tlv_octets outer (confirmed_octets invoke_id tag content)
  encode_confirmed-octets outer =
      Appends-tlv outer (λ w. service (integer w integer_tag invoke_id))
        (confirmed_octets invoke_id tag content)
        (Appends-then (λ w. integer w integer_tag invoke_id) service _ _
          (Appends-integer integer_tag invoke_id) (Appends-last service _ writes))
        []

  -- The content of the service is no longer than the PDU.
  content-le-encode :
      (outer : Tag) → length content ≤ length (encode_confirmed outer invoke_id service)
  content-le-encode outer =
      let identifier : Bytes = tlv_octets integer_tag (encode_integer invoke_id) in
      omega (
        arith,
        ap length (encode_confirmed-octets outer),
        content-le-tlv_octets outer (confirmed_octets invoke_id tag content),
        length-append identifier (tlv_octets tag content ++ []),
        length-append (tlv_octets tag content) [],
        content-le-tlv_octets tag content,
      )

  pub content-le-request : length content ≤ length (encode_confirmed_request invoke_id service)
  unfolding encode_confirmed_request
  content-le-request = content-le-encode confirmed_request

  pub content-le-response : length content ≤ length (encode_confirmed_response invoke_id service)
  unfolding encode_confirmed_response
  content-le-response = content-le-encode confirmed_response

  module _ (id_u32 : invoke_id < 2 ^ 32) (number : tag.number < 2 ^ 32) where
    read_invoked-octets :
        (r : BerReader)
        → Stands r (confirmed_octets invoke_id tag content)
        → read_invoked r ≡ ok (invoke_id, record { tag = tag; content = content })
    read_invoked-octets r stands =
        let (r₁, e₀, s₁) =
          read_unsigned_step r invoke_id (tlv_octets tag content ++ []) id_u32 stands in
        let (r₂, e₁, s₂, _) = read_tlv_into r₁ tag content [] number s₁ in rw (e₀, e₁) refl

    -- The outer TLV of an encoded PDU, and a cursor at its content.
    read_outer :
        (outer : Tag)
        → outer.number < 2 ^ 32
        → length (encode_confirmed outer invoke_id service) < 2 ^ 64
        → (r' : BerReader) × (read_tlv (new (encode_confirmed outer invoke_id service))
            ≡ ok (record { tag = outer; content = confirmed_octets invoke_id tag content }, r'))
          × Stands
              (new (confirmed_octets invoke_id tag content))
              (confirmed_octets invoke_id tag content)
    read_outer outer small fits =
        let e = encode_confirmed-octets outer in
        let stands : Stands (new (tlv_octets outer (confirmed_octets invoke_id tag content)))
            (tlv_octets outer (confirmed_octets invoke_id tag content)) =
          ([], refl, rw e at fits) in
        let (r', read, _, inside) =
          read_tlv_into _ outer (confirmed_octets invoke_id tag content) [] small
            (Stands-last _ outer _ stands) in
        (r', rw e read, inside)

    -- A service that appends one TLV, with an identifier of 32 bits and an input below 2 ^ 64 octets: the server finds the
    -- identifier and the TLV of the service in the request.
    pub parse_confirmed_request-encode :
        length (encode_confirmed_request invoke_id service) < 2 ^ 64
        → parse_confirmed_request (encode_confirmed_request invoke_id service)
          ≡ ok (invoke_id, record { tag = tag; content = content })
    unfolding parse_confirmed_request encode_confirmed_request tag_eq
    parse_confirmed_request-encode fits =
        let (r', e, inside) = read_outer confirmed_request (omega arith) fits in
        rw e (read_invoked-octets _ inside)

    -- The same for a response at the client.
    pub parse_confirmed_response-encode :
        length (encode_confirmed_response invoke_id service) < 2 ^ 64
        → parse_confirmed_response (encode_confirmed_response invoke_id service)
          ≡ ok (invoke_id, record { tag = tag; content = content })
    unfolding parse_confirmed_response encode_confirmed_response tag_eq
    parse_confirmed_response-encode fits =
        let (r', e, inside) = read_outer confirmed_response (omega arith) fits in
        rw e (read_invoked-octets _ inside)

    -- A service that appends one TLV, with an identifier of 32 bits and inputs below 2 ^ 64 octets: the reading task of the client
    -- finds the kind and the identifier of a response, and those of an error.
    pub peek_invoke_and_kind-encode :
        length (encode_confirmed_response invoke_id service) < 2 ^ 64
        → length (encode_confirmed_error invoke_id service) < 2 ^ 64
        → (peek_invoke_and_kind (encode_confirmed_response invoke_id service)
            ≡ ok (confirmed_response_kind, some invoke_id))
          × (peek_invoke_and_kind (encode_confirmed_error invoke_id service)
              ≡ ok (confirmed_error_kind, some invoke_id))
    unfolding peek_invoke_and_kind encode_confirmed_response encode_confirmed_error tag_eq
    peek_invoke_and_kind-encode fits fits' =
        let (r', e, inside) = read_outer confirmed_response (omega arith) fits in
        let (_, e', inside') = read_outer confirmed_error (omega arith) fits' in
        let (_, id, _) = read_unsigned_step _ invoke_id _ id_u32 inside in
        (rw (e, id) refl, rw (e', id) refl)
