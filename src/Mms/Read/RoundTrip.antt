-- ===== src/Mms/Read/RoundTrip.antt =====
-- Requests and responses of Read arrive as they were sent.
use iec_61850_studio.Base.{
  ◌<◌, ◌^◌, [], ◌∷◌, ◌++◌, none, true, false, length, ◌≡◌, refl, ◌∙◌, arith, inr,
}
use iec_61850_studio.Base.Result.{ok}
use iec_61850_studio.Base.Words.{Bytes}
use iec_61850_studio.Ber.Error.{Tag}
use iec_61850_studio.Ber.Tag.{tag_eq}
use iec_61850_studio.Ber.Std.{Std}
use iec_61850_studio.Ber.Reader.{new}
use iec_61850_studio.Ber.Writer.Laws.{tlv_octets}
use iec_61850_studio.Ber.Fields.{Stands, read_if_step}
use iec_61850_studio.Ber.Nested.{
  Appends, Appends-tlv, Appends-last, each_octets, expect_into, read_tlv_into, Stands-last,
}
use iec_61850_studio.Mms.Pdu.{context_tag, expect_service}
use iec_61850_studio.Mms.Pdu.Variables.{
  Variable, IsVariable, specific_octets, variable_octets, write_domain_specific-Appends,
  write_variable-Appends, read_domain_specific_lem, parse_list_of_variable-octets,
}
use iec_61850_studio.Mms.Read.{
  read_service, write_request, write_data_set_request, variables, named_list, target_of,
  decode_request,
}

-- The content of a request for a variable, and of one for a data set.
abbrev pub request_octets : Variable → Bytes
request_octets v =
    tlv_octets (context_tag 1 true)
      (tlv_octets (context_tag 0 true) (each_octets variable_octets (v ∷ [])))

abbrev pub data_set_octets : Variable → Bytes
data_set_octets v =
    tlv_octets (context_tag 1 true) (tlv_octets (context_tag 1 true) (specific_octets v))

pub write_request-Appends :
    (domain item : Bytes)
    → Appends (write_request domain item) (tlv_octets read_service (request_octets (domain, item)))
unfolding write_request
write_request-Appends domain item = Appends-tlv read_service _ _ (
    Appends-tlv (context_tag 1 true) _ _ (
      Appends-tlv (context_tag 0 true) _ _
        (Appends-last _ _ (write_variable-Appends (domain, item)))))

pub write_data_set_request-Appends :
    (domain name : Bytes)
    → Appends
        (write_data_set_request domain name)
        (tlv_octets read_service (data_set_octets (domain, name)))
unfolding write_data_set_request
write_data_set_request-Appends domain name = Appends-tlv read_service _ _ (
    Appends-tlv (context_tag 1 true) _ _
      (Appends-tlv (context_tag 1 true) _ _ (write_domain_specific-Appends domain name)))

-- The way to the choice, which is a TLV of a constructed tag.
to_choice :
    (s : Std) (tag : Tag) (content : Bytes)
    → tag.number < 2 ^ 32
    → length (tlv_octets (context_tag 1 true) (tlv_octets tag content)) < 2 ^ 64
    → (decode_request s (record {
      tag = read_service;
      content = tlv_octets (context_tag 1 true) (tlv_octets tag content);
    })
        ≡ target_of s (record { tag = tag; content = content }))
      × Stands (new content) content
unfolding decode_request expect_service tag_eq
to_choice s tag content number small =
    let choice : Bytes = tlv_octets tag content in
    let whole : Bytes = tlv_octets (context_tag 1 true) choice in
    let stands = Stands-last (new whole) (context_tag 1 true) choice ([], refl, small) in
    let (r₁, e₀, s₁) =
      read_if_step (new whole) (context_tag 0 false) none (whole ++ []) (omega arith)
        (inr (context_tag 1 true, choice, [], refl, refl, omega arith)) stands in
    let (_, e₁, _, inside) = expect_into r₁ (context_tag 1 true) choice [] (omega arith) s₁ in
    let (_, e₂, _, inside') =
      read_tlv_into _ tag content [] number (Stands-last _ tag content inside) in
    (rw (e₀, e₁, e₂) refl, inside')

pub decode_request-write_request :
    (s : Std) (v : Variable)
    → IsVariable s v
    → length (request_octets v) < 2 ^ 64
    → decode_request s (record { tag = read_service; content = request_octets v })
      ≡ ok (variables (v ∷ []))
unfolding tag_eq
decode_request-write_request s v h small =
    let (e₀, inside) =
      to_choice s (context_tag 0 true) (each_octets variable_octets (v ∷ [])) (omega arith) small in
    e₀ ∙ rw (parse_list_of_variable-octets s (v ∷ []) (h, tt) inside) refl

pub decode_request-write_data_set_request :
    (s : Std) (v : Variable)
    → IsVariable s v
    → length (data_set_octets v) < 2 ^ 64
    → decode_request s (record { tag = read_service; content = data_set_octets v })
      ≡ ok (named_list v.0 v.1)
unfolding tag_eq
decode_request-write_data_set_request s v h small =
    let (e₀, inside) = to_choice s (context_tag 1 true) (specific_octets v) (omega arith) small in
    e₀ ∙ rw (read_domain_specific_lem s _ v [] h (Stands-last _ _ _ inside)) refl
