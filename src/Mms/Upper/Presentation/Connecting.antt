-- ===== src/Mms/Upper/Presentation/Connecting.antt =====
-- The CP of a client, read by the server.
use iec_61850_studio.Base.{
  ℕ, zero, suc, ◌<◌, ◌≤◌, ◌^◌, List, [], ◌∷◌, ◌++◌, some, true, false, length, ◌≡◌, refl, ap, ◌∙◌,
  arith,
}
use iec_61850_studio.Base.Result.{ok}
use iec_61850_studio.Base.Words.{Bytes}
use iec_61850_studio.Ber.Tag.{tag_eq}
use iec_61850_studio.Ber.Primitives.{encode_integer}
use iec_61850_studio.Ber.Primitives.Integer.{decode_integer-encode_integer}
use iec_61850_studio.Ber.Reader.{BerReader, new}
use iec_61850_studio.Ber.Writer.{raw, sequence_tag}
use iec_61850_studio.Ber.Writer.Laws.{tlv_octets}
use iec_61850_studio.Ber.Fields.{Stands, at_end-is_empty, not-is_empty}
use iec_61850_studio.Ber.Nested.{
  Appends, Appends-then, Appends-tlv, Appends-sequence, Appends-integer, Appends-oid,
  Appends-octets, Appends-raw, Appends-last, expect_into, read_tlv_into, Stands-last,
  tlv_octets_some,
}
use iec_61850_studio.Ber.Children.{Child, child_octets}
use iec_61850_studio.Transport.Error.{transport}
use iec_61850_studio.Mms.Loop.{fold_each, fold_each-octets}
use iec_61850_studio.Mms.Pdu.{context_tag, integer_tag}
use iec_61850_studio.Mms.Upper.Acse.{oid_tag}
use iec_61850_studio.Mms.Upper.Acse.Association.{
  children_octets, read_outer, child-Stands, Stands-small,
}
use iec_61850_studio.Mms.Upper.Presentation.{
  Oid, acse_as, mms_as, ber_ts, oid_content, set_tag, fully_encoded, user_data, context_list_item,
  write_mode, selector, connect_cp, ProposedContext, transfer_syntaxes_in, read_context, on_context,
  parse_context_list, on_parameter, on_element, parse_cp, CpState, no_elements,
}
use iec_61850_studio.Mms.Upper.Presentation.Data.{pdv_octets, user_data-octets, drill_pdv-octets}

-- The content of a proposed context.
abbrev context_content : ℕ → Oid → Bytes
context_content id syntax =
    tlv_octets integer_tag (encode_integer id)
    ++ (tlv_octets oid_tag (oid_content syntax)
        ++ (tlv_octets sequence_tag (tlv_octets oid_tag (oid_content ber_ts)) ++ []))

abbrev context_child : ℕ → Oid → Child
context_child id syntax = (sequence_tag, context_content id syntax)

abbrev context_children : List Child
context_children = context_child 1 acse_as ∷ context_child 3 mms_as ∷ []

abbrev parameter_children : Bytes → List Child
parameter_children aarq =
    (context_tag 1 false, selector)
    ∷ (context_tag 2 false, selector)
    ∷ (context_tag 4 true, children_octets context_children)
    ∷ (fully_encoded, pdv_octets aarq 1)
    ∷ []

abbrev element_children : Bytes → List Child
element_children aarq =
    (context_tag 0 true, tlv_octets (context_tag 0 false) (encode_integer 1))
    ∷ (context_tag 2 true, children_octets (parameter_children aarq))
    ∷ []

context_list_item-Appends :
    (id : ℕ) (syntax : Oid)
    → Appends (context_list_item id syntax) (child_octets (context_child id syntax))
context_list_item-Appends id (a, b, arcs) = Appends-sequence _ _ (
    Appends-then _ _ _ _ (Appends-integer integer_tag id) (
      Appends-then _ _ _ _ (Appends-oid oid_tag a b arcs)
        (Appends-last _ _ (Appends-sequence _ _ (Appends-oid oid_tag 2 1 (1 ∷ []))))))

write_mode-Appends :
    Appends write_mode
      (child_octets (context_tag 0 true, tlv_octets (context_tag 0 false) (encode_integer 1)))
write_mode-Appends = Appends-tlv (context_tag 0 true) _ _ (Appends-integer (context_tag 0 false) 1)

user_data-Appends :
    (pdu : Bytes) (id : ℕ)
    → Appends (λ w. raw w (user_data pdu id)) (tlv_octets fully_encoded (pdv_octets pdu id))
user_data-Appends pdu id w =
    Appends-raw (user_data pdu id) w ∙ ap (λ (t : Bytes). w ++ t) (user_data-octets pdu id)

pub connect_cp-octets :
    (aarq : Bytes) → connect_cp aarq ≡ tlv_octets set_tag (children_octets (element_children aarq))
unfolding connect_cp
connect_cp-octets aarq =
    Appends-tlv set_tag _ (children_octets (element_children aarq))
      (Appends-then _ _ _ _ write_mode-Appends (
        Appends-last _ _ (
          Appends-tlv (context_tag 2 true) _ _ (
            Appends-then _ _ _ _ (Appends-octets (context_tag 1 false) selector) (
              Appends-then _ _ _ _ (Appends-octets (context_tag 2 false) selector) (
                Appends-then _ _ _ _
                  (Appends-tlv (context_tag 4 true) _ _ (
                    Appends-then _ _ _ _ (context_list_item-Appends 1 acse_as)
                      (Appends-last _ _ (context_list_item-Appends 3 mms_as))))
                  (Appends-last _ _ (user_data-Appends aarq 1))))))))
      []

-- What the server makes of a context.
abbrev pub proposed : ℕ → Oid → ProposedContext
proposed id syntax = record {
  id = id;
  abstract_syntax = oid_content syntax;
  transfer_syntaxes = oid_content ber_ts ∷ [];
}

no_transfer_syntax : (n : ℕ) (r : BerReader) → Stands r [] → transfer_syntaxes_in n r ≡ []
unfolding transfer_syntaxes_in
no_transfer_syntax zero r stands = refl
no_transfer_syntax (suc n) r stands = rw (at_end-is_empty r stands) refl

one_transfer_syntax :
    (oid : Bytes) (n : ℕ) (r : BerReader)
    → 1 ≤ n
    → Stands r (tlv_octets oid_tag oid ++ [])
    → transfer_syntaxes_in n r ≡ oid ∷ []
unfolding transfer_syntaxes_in
one_transfer_syntax oid zero r h stands = absurd (omega arith)
one_transfer_syntax oid (suc n) r h stands =
    let (r', e, stands', _) = expect_into r oid_tag oid [] (omega arith) stands in
    rw (not-is_empty r oid_tag oid [] stands, e, no_transfer_syntax n r' stands') refl

read_context-octets :
    (id : ℕ) (syntax : Oid)
    → id < 2 ^ 64
    → Stands (new (context_content id syntax)) (context_content id syntax)
    → read_context (context_content id syntax) ≡ ok (proposed id syntax)
unfolding read_context
read_context-octets id syntax small stands =
    let ber : Bytes = oid_content ber_ts in
    let (r₁, e₀, s₁, _) = expect_into _ integer_tag (encode_integer id) _ (omega arith) stands in
    let (r₂, e₁, s₂, _) = expect_into r₁ oid_tag (oid_content syntax) _ (omega arith) s₁ in
    let (r₃, e₂, _, inside) =
      expect_into r₂ sequence_tag (tlv_octets oid_tag (oid_content ber_ts)) [] (omega arith) s₂ in
    rw
      (
        e₀,
        decode_integer-encode_integer id small,
        e₁,
        e₂,
        one_transfer_syntax ber _ (new (tlv_octets oid_tag ber)) (tlv_octets_some oid_tag ber)
            (Stands-last _ oid_tag ber inside),
      )
      refl

parse_context_list-octets :
    Stands (new (children_octets context_children)) (children_octets context_children)
    → parse_context_list (children_octets context_children)
      ≡ ok (proposed 1 acse_as ∷ proposed 3 mms_as ∷ [])
unfolding parse_context_list on_context tag_eq
parse_context_list-octets stands =
    let fits = Stands-small _ stands in
    let acse = read_context-octets 1 acse_as (omega arith) (
      child-Stands [] sequence_tag (context_content 1 acse_as) (context_child 3 mms_as ∷ [])
        fits) in
    let mms = read_context-octets 3 mms_as (omega arith) (
      child-Stands (context_child 1 acse_as ∷ []) sequence_tag (context_content 3 mms_as) []
        fits) in
    fold_each-octets (λ _. transport) on_context context_children [] (omega arith) stands
    ∙ rw (acse, mms) refl

abbrev before_contexts : List Child
before_contexts = (context_tag 1 false, selector) ∷ (context_tag 2 false, selector) ∷ []

abbrev read_elements : Bytes → CpState
read_elements aarq = record {
  contexts = proposed 1 acse_as ∷ proposed 3 mms_as ∷ [];
  called_selector = some selector;
  inner_pdu = some aarq;
}

parameters-octets :
    (aarq : Bytes)
    → Stands
        (new (children_octets (parameter_children aarq)))
        (children_octets (parameter_children aarq))
    → fold_each
        (λ _. transport)
        on_parameter
        (children_octets (parameter_children aarq))
        no_elements
      ≡ ok (read_elements aarq)
unfolding on_parameter tag_eq
parameters-octets aarq stands =
    let fits = Stands-small _ stands in
    let list : Bytes = children_octets context_children in
    let pdv : Bytes = pdv_octets aarq 1 in
    let contexts =
      parse_context_list-octets
        (child-Stands before_contexts (context_tag 4 true) list ((fully_encoded, pdv) ∷ []) fits) in
    let inner = drill_pdv-octets aarq 1 (
      child-Stands (before_contexts ++ (context_tag 4 true, list) ∷ []) fully_encoded pdv []
        fits) in
    fold_each-octets (λ _. transport) on_parameter (parameter_children aarq) no_elements
      (omega arith) stands
    ∙ rw (contexts, inner) refl

elements-octets :
    (aarq : Bytes)
    → Stands
        (new (children_octets (element_children aarq)))
        (children_octets (element_children aarq))
    → fold_each (λ _. transport) on_element (children_octets (element_children aarq)) no_elements
      ≡ ok (read_elements aarq)
unfolding on_element tag_eq
elements-octets aarq stands =
    let fits = Stands-small _ stands in
    let parameters : Bytes = children_octets (parameter_children aarq) in
    let code : Bytes = encode_integer 1 in
    let mode : Bytes = tlv_octets (context_tag 0 false) code in
    let at_mode =
      child-Stands [] (context_tag 0 true) mode ((context_tag 2 true, parameters) ∷ []) fits in
    let (_, read, _, _) =
      read_tlv_into _ (context_tag 0 false) code [] (omega arith) (Stands-last _ _ code at_mode) in
    let inside =
      child-Stands ((context_tag 0 true, mode) ∷ []) (context_tag 2 true) parameters [] fits in
    fold_each-octets (λ _. transport) on_element (element_children aarq) no_elements (omega arith)
      stands
    ∙ rw (read, decode_integer-encode_integer 1 (omega arith), parameters-octets aarq inside) refl

-- For an input below 2 ^ 64 octets: the server reads from the CP of the client the two contexts with the BER transfer syntax, in
-- their order, the called selector and the AARQ.
pub parse_cp-connect_cp :
    (aarq rest : Bytes)
    → length (connect_cp aarq ++ rest) < 2 ^ 64
    → parse_cp (connect_cp aarq ++ rest)
      ≡ ok (record {
        contexts = proposed 1 acse_as ∷ proposed 3 mms_as ∷ [];
        called_selector = some (0 ∷ 0 ∷ 0 ∷ 1 ∷ []);
        inner_pdu = aarq;
      })
unfolding parse_cp tag_eq
parse_cp-connect_cp aarq rest small =
    let e = connect_cp-octets aarq in
    let (_, read, inside) =
      read_outer set_tag (children_octets (element_children aarq)) rest (omega arith)
        (rw e at small) in
    rw (e, read, elements-octets aarq inside) refl
