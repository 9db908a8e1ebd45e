-- ===== src/Mms/Upper/Acse/Verdict.antt =====
-- The answer to an association: the client gets the MMS PDU of one that was accepted, and none of one that was rejected.
use iec_61850_studio.Base.{
  ℕ, ◌<◌, ◌^◌, List, [], ◌∷◌, ◌++◌, true, length, ◌==◌, if◌then◌else◌, Bool-cases, inl, inr, ◌≡◌,
  refl, arith,
}
use iec_61850_studio.Base.Result.{ok, err}
use iec_61850_studio.Base.Words.{Bytes}
use iec_61850_studio.Ber.Tag.{tag_eq}
use iec_61850_studio.Ber.Primitives.{encode_integer}
use iec_61850_studio.Ber.Primitives.Integer.{decode_integer-encode_integer}
use iec_61850_studio.Ber.Writer.{tlv}
use iec_61850_studio.Ber.Writer.Laws.{tlv_octets}
use iec_61850_studio.Ber.Nested.{
  Appends, Appends-then, Appends-tlv, Appends-integer, Appends-last, expect_into, Stands-last,
}
use iec_61850_studio.Ber.Children.{Child, search_children-octets}
use iec_61850_studio.Transport.Error.{associate_rejected}
use iec_61850_studio.Mms.Pdu.{context_tag, integer_tag}
use iec_61850_studio.Mms.Upper.Acse.{
  aare_tag, user_information, write_app_context, write_user_information, write_diagnostic, aare,
  aare_reject, find_child, parse_aare,
}
use iec_61850_studio.Mms.Upper.Acse.Association.{
  children_octets, app_context, information, information_octets, write_app_context-Appends,
  write_user_information-Appends, extract_external_value-octets, read_outer, child-Stands,
  Stands-small,
}

-- The result and its diagnostic, in front of other children.
abbrev diagnostic_children : ℕ → ℕ → List Child → List Child
diagnostic_children result diagnostic children =
    (context_tag 2 true, tlv_octets integer_tag (encode_integer result))
    ∷ (
      context_tag 3 true,
      tlv_octets (context_tag 1 true) (tlv_octets integer_tag (encode_integer diagnostic)),
    )
    ∷ children

write_diagnostic-Appends :
    (result diagnostic : ℕ)
    → Appends
        (write_diagnostic result diagnostic)
        (children_octets (diagnostic_children result diagnostic []))
write_diagnostic-Appends result diagnostic =
    Appends-then _ _ _ _ (Appends-tlv (context_tag 2 true) _ _ (Appends-integer integer_tag result))
      (Appends-last _ _ (
        Appends-tlv (context_tag 3 true) _ _
          (Appends-tlv (context_tag 1 true) _ _ (Appends-integer integer_tag diagnostic))))

abbrev aare_children : ℕ → ℕ → Bytes → List Child
aare_children result diagnostic pdu =
    app_context ∷ diagnostic_children result diagnostic (information pdu ∷ [])

-- An answer with any result, as `aare` writes the one that accepts.
abbrev pub answer : ℕ → ℕ → Bytes → Bytes
answer result diagnostic pdu =
    tlv [] aare_tag
      (λ w. write_user_information pdu (write_diagnostic result diagnostic (write_app_context w)))

abbrev reject_children : List Child
reject_children = app_context ∷ diagnostic_children 1 6 []

answer-octets :
    (result diagnostic : ℕ) (pdu : Bytes)
    → answer result diagnostic pdu
      ≡ tlv_octets aare_tag (children_octets (aare_children result diagnostic pdu))
answer-octets result diagnostic pdu =
    Appends-tlv aare_tag _ (children_octets (aare_children result diagnostic pdu))
      (Appends-then _ _ _ _ write_app_context-Appends (
        Appends-then _ _ _ _
          (Appends-tlv (context_tag 2 true) _ _ (Appends-integer integer_tag result))
          (Appends-then _ _ _ _
            (Appends-tlv (context_tag 3 true) _ _
              (Appends-tlv (context_tag 1 true) _ _ (Appends-integer integer_tag diagnostic)))
            (Appends-last _ _ (write_user_information-Appends pdu)))))
      []

aare_reject-octets : aare_reject ≡ tlv_octets aare_tag (children_octets reject_children)
unfolding aare_reject
aare_reject-octets =
    Appends-tlv aare_tag _ (children_octets reject_children)
      (Appends-then _ _ _ _ write_app_context-Appends (write_diagnostic-Appends 1 6)) []

-- An answer below 2 ^ 64 octets, with any result of 64 bits and any diagnostic: the client gets the MMS PDU in it exactly where
-- the result is 0, accepted, and the error of a rejection otherwise, whatever PDU the answer carries.
pub parse_aare-answer :
    (result diagnostic : ℕ) (pdu rest : Bytes)
    → result < 2 ^ 64
    → length (answer result diagnostic pdu ++ rest) < 2 ^ 64
    → parse_aare (answer result diagnostic pdu ++ rest)
      ≡ (if result == 0 then ok pdu else err associate_rejected)
unfolding parse_aare find_child tag_eq
parse_aare-answer result diagnostic pdu rest code_size small =
    let whole = answer-octets result diagnostic pdu in
    let children : List Child = aare_children result diagnostic pdu in
    let (_, e, inside) =
      read_outer aare_tag (children_octets children) rest (omega arith) (rw whole at small) in
    let fits = Stands-small _ inside in
    let explicit =
      search_children-octets (λ t. tag_eq t (context_tag 2 true)) children (omega arith) inside in
    let reason =
      search_children-octets (λ t. tag_eq t (context_tag 3 true)) children (omega arith) inside in
    let (_, code, _, _) = expect_into _ integer_tag (encode_integer result) [] (omega arith) (
      Stands-last _ _ _ (
        child-Stands (app_context ∷ []) (context_tag 2 true)
          (tlv_octets integer_tag (encode_integer result))
          ((
            context_tag 3 true,
            tlv_octets (context_tag 1 true) (tlv_octets integer_tag (encode_integer diagnostic)),
          )
            ∷ information pdu
            ∷ [])
          fits)) in
    let found =
      search_children-octets (λ t. tag_eq t user_information) children (omega arith) inside in
    let value = extract_external_value-octets pdu (
      child-Stands
        (app_context
          ∷ (context_tag 2 true, tlv_octets integer_tag (encode_integer result))
          ∷ (
            context_tag 3 true,
            tlv_octets (context_tag 1 true) (tlv_octets integer_tag (encode_integer diagnostic)),
          )
          ∷ [])
        user_information (information_octets pdu) [] fits) in
    let read = decode_integer-encode_integer result code_size in
    elim (Bool-cases (result == 0)) [
      | inl accepted ↦ rw (whole, e, explicit, code, read, accepted, found) value
      | inr rejected ↦ rw (whole, e, explicit, code, read, rejected, reason) refl
    ]

-- The answer that accepts, as the server writes it.
parse_aare-aare :
    (pdu rest : Bytes) → length (aare pdu ++ rest) < 2 ^ 64 → parse_aare (aare pdu ++ rest) ≡ ok pdu
unfolding aare
parse_aare-aare pdu rest small = parse_aare-answer 0 0 pdu rest (omega arith) small

-- The AARE that rejects has no PDU for the client: its result is reported.
parse_aare-aare_reject :
    (rest : Bytes)
    → length (aare_reject ++ rest) < 2 ^ 64
    → parse_aare (aare_reject ++ rest) ≡ err associate_rejected
unfolding parse_aare find_child tag_eq
parse_aare-aare_reject rest small =
    let children : List Child = reject_children in
    let (_, e, inside) =
      read_outer aare_tag (children_octets children) rest (omega arith)
        (rw aare_reject-octets at small) in
    let result =
      search_children-octets (λ t. tag_eq t (context_tag 2 true)) children (omega arith) inside in
    let diagnostic =
      search_children-octets (λ t. tag_eq t (context_tag 3 true)) children (omega arith) inside in
    let (_, code, _, _) = expect_into _ integer_tag (encode_integer 1) [] (omega arith) (
      Stands-last _ _ _ (
        child-Stands (app_context ∷ []) (context_tag 2 true)
          (tlv_octets integer_tag (encode_integer 1))
          ((
            context_tag 3 true,
            tlv_octets (context_tag 1 true) (tlv_octets integer_tag (encode_integer 6)),
          )
            ∷ [])
          (Stands-small _ inside))) in
    rw
      (
        aare_reject-octets,
        e,
        result,
        code,
        decode_integer-encode_integer 1 (omega arith),
        diagnostic,
      )
      refl
