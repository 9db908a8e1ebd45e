-- ===== src/Mms/VariableLists/RoundTrip.antt =====
-- What is asked about a dynamic dataset, and what is answered, is read as it was written.
use iec_61850_studio.Base.{
  ◌<◌, ◌%◌, ◌^◌, List, [], ◌∷◌, ◌++◌, some, Bool, true, false, length, All, inl, inr, ◌≡◌, refl,
  arith,
}
use iec_61850_studio.Base.Result.{ok}
use iec_61850_studio.Base.Words.{Bytes}
use iec_61850_studio.Ber.Tag.{tag_eq}
use iec_61850_studio.Ber.Primitives.{encode_integer, encode_unsigned, encode_bool, decode_bool}
use iec_61850_studio.Ber.Primitives.Unsigned.{decode_unsigned-encode_unsigned}
use iec_61850_studio.Ber.Std.{Std}
use iec_61850_studio.Ber.Reader.{BerReader, new}
use iec_61850_studio.Ber.Writer.{sequence_tag}
use iec_61850_studio.Ber.Writer.Laws.{tlv_octets}
use iec_61850_studio.Ber.Fields.{Stands, Stands-fits, read_if_step}
use iec_61850_studio.Ber.Nested.{
  Appends, Appends-then, Appends-last, Appends-tlv, Appends-integer, Appends-unsigned,
  Appends-boolean, Appends-sequence, Appends-each, expect_into, read_tlv_into, Stands-last,
  each_octets, tlv_octets_some,
}
use iec_61850_studio.Mms.Loop.{read_each-octets}
use iec_61850_studio.Mms.Pdu.{context_tag, visible_string_tag, expect_service}
use iec_61850_studio.Mms.Pdu.Variables.{
  Variable, IsVariable, names_octets, specific_octets, variable_octets,
  write_domain_specific-Appends, read_text_step,
}
use iec_61850_studio.Mms.VariableLists.{
  DeleteResult, ListAttributes, define_named_variable_list, get_named_variable_list_attributes,
  delete_named_variable_list, write_members, write_object_name, read_object_name_inner_from_ds,
  read_object_name, read_variable_spec, parse_list_of_variable_spec, write_define_request,
  decode_define_request, write_delete_request, read_list_name, decode_delete_request,
  encode_delete_response, decode_delete_response, encode_get_attributes_response,
  decode_get_attributes_response, write_get_attributes_request, decode_get_attributes_request,
}

write_object_name-Appends : (v : Variable) → Appends (write_object_name v) (specific_octets v)
write_object_name-Appends (domain, item) = write_domain_specific-Appends domain item

write_members-Appends :
    (members : List Variable)
    → Appends (write_members members) (each_octets variable_octets members)
write_members-Appends members =
    Appends-each _ variable_octets
      (λ m.
        Appends-sequence _ _ (Appends-tlv (context_tag 0 true) _ _ (write_object_name-Appends m)))
      members

-- A name behind any cursor at its content.
read_inner-octets :
    (s : Std) (v : Variable)
    → IsVariable s v
    → Stands (new (names_octets v)) (names_octets v)
    → read_object_name_inner_from_ds s (names_octets v) ≡ ok v
unfolding read_object_name_inner_from_ds
read_inner-octets s (domain, item) (hd, hi) stands =
    let (r₁, e₁, s₁) = read_text_step s _ visible_string_tag domain _ (omega arith) hd stands in
    let (_, e₂, _) = read_text_step s r₁ visible_string_tag item [] (omega arith) hi s₁ in
    rw (e₁, e₂) refl

read_object_name-octets :
    (s : Std) (v : Variable)
    → IsVariable s v
    → Stands (new (specific_octets v)) (specific_octets v)
    → read_object_name s (specific_octets v) ≡ ok v
unfolding read_object_name
read_object_name-octets s v h stands =
    let (_, e, _, inside) =
      expect_into _ (context_tag 1 true) (names_octets v) [] (omega arith)
        (Stands-last _ _ _ stands) in
    rw e (read_inner-octets s v h inside)

read_variable_spec_step :
    (s : Std) (v : Variable) (r : BerReader) (rest : Bytes)
    → IsVariable s v
    → Stands r (variable_octets v ++ rest)
    → (r' : BerReader) × (read_variable_spec s r ≡ ok (v, r')) × Stands r' rest
unfolding read_variable_spec
read_variable_spec_step s v r rest h stands =
    let (r₁, e₀, s₁, inside) =
      read_tlv_into r sequence_tag (tlv_octets (context_tag 0 true) (specific_octets v)) rest
        (omega arith) stands in
    let (_, e₁, _, inside') =
      expect_into _ (context_tag 0 true) (specific_octets v) [] (omega arith)
        (Stands-last _ _ _ inside) in
    (r₁, rw (e₀, e₁, read_object_name-octets s v h inside') refl, s₁)

parse_list_of_variable_spec-octets :
    (s : Std) (members : List Variable)
    → All (IsVariable s) members
    → Stands (new (each_octets variable_octets members)) (each_octets variable_octets members)
    → parse_list_of_variable_spec s (each_octets variable_octets members) ≡ ok members
unfolding parse_list_of_variable_spec
parse_list_of_variable_spec-octets s members h stands =
    read_each-octets (read_variable_spec s) variable_octets (IsVariable s)
      (read_variable_spec_step s) (λ v. tlv_octets_some sequence_tag _) members h stands

abbrev pub define_octets : Variable → List Variable → Bytes
define_octets name members =
    specific_octets name
    ++ (tlv_octets (context_tag 0 true) (each_octets variable_octets members) ++ [])

pub write_define_request-Appends :
    (name : Variable) (members : List Variable)
    → Appends
        (write_define_request name members)
        (tlv_octets define_named_variable_list (define_octets name members))
unfolding write_define_request
write_define_request-Appends name members = Appends-tlv define_named_variable_list _ _ (
    Appends-then _ _ _ _ (write_object_name-Appends name)
      (Appends-last _ _ (Appends-tlv (context_tag 0 true) _ _ (write_members-Appends members))))

pub decode_define_request-octets :
    (s : Std) (name : Variable) (members : List Variable)
    → IsVariable s name
    → All (IsVariable s) members
    → length (define_octets name members) < 2 ^ 64
    → decode_define_request s
        (record { tag = define_named_variable_list; content = define_octets name members })
      ≡ ok (name, members)
unfolding decode_define_request expect_service tag_eq
decode_define_request-octets s name members h hs small =
    let (r₁, e₁, s₁, inside) =
      expect_into (new (define_octets name members)) (context_tag 1 true) (names_octets name) _
        (omega arith) ([], refl, small) in
    let e₂ = read_inner-octets s name h inside in
    let (_, e₃, _, inside') =
      expect_into r₁ (context_tag 0 true) (each_octets variable_octets members) [] (omega arith)
        s₁ in
    rw (e₁, e₂, e₃, parse_list_of_variable_spec-octets s members hs inside') refl

abbrev pub delete_octets : Variable → Bytes
delete_octets name =
    tlv_octets (context_tag 0 false) (encode_integer 0)
    ++ (tlv_octets (context_tag 1 true) (each_octets specific_octets (name ∷ [])) ++ [])

pub write_delete_request-Appends :
    (name : Variable)
    → Appends
        (write_delete_request name)
        (tlv_octets delete_named_variable_list (delete_octets name))
unfolding write_delete_request
write_delete_request-Appends name = Appends-tlv delete_named_variable_list _ _ (
    Appends-then _ _ _ _ (Appends-integer (context_tag 0 false) 0) (
      Appends-last _ _
        (Appends-tlv (context_tag 1 true) _ _ (Appends-last _ _ (write_object_name-Appends name)))))

read_list_name_step :
    (s : Std) (v : Variable) (r : BerReader) (rest : Bytes)
    → IsVariable s v
    → Stands r (specific_octets v ++ rest)
    → (r' : BerReader) × (read_list_name s r ≡ ok (v, r')) × Stands r' rest
unfolding read_list_name
read_list_name_step s v r rest h stands =
    let (r₁, e, s₁, inside) =
      expect_into r (context_tag 1 true) (names_octets v) rest (omega arith) stands in
    (r₁, rw (e, read_inner-octets s v h inside) refl, s₁)

pub decode_delete_request-octets :
    (s : Std) (name : Variable)
    → IsVariable s name
    → length (delete_octets name) < 2 ^ 64
    → decode_delete_request s
        (record { tag = delete_named_variable_list; content = delete_octets name })
      ≡ ok (name ∷ [])
unfolding decode_delete_request expect_service tag_eq
decode_delete_request-octets s name h small =
    let names : Bytes = each_octets specific_octets (name ∷ []) in
    let (r₁, e₁, s₁) =
      read_if_step (new (delete_octets name)) (context_tag 0 false) (some (encode_integer 0)) _
        (omega arith) (inr (_, _, _, refl, refl, omega arith)) ([], refl, small) in
    let (r₂, e₂, s₂) =
      read_if_step r₁ (context_tag 1 true) (some names) [] (omega arith) (inl refl) s₁ in
    let inside : Stands (new names) names =
      ([], refl, Stands-fits r₁ (context_tag 1 true) names [] s₁) in
    rw (e₁, e₂)
      (read_each-octets (read_list_name s) specific_octets (IsVariable s) (read_list_name_step s)
        (λ v. tlv_octets_some (context_tag 1 true) _) (name ∷ []) (h, tt) inside)

-- Counts of a `u32`.
abbrev pub IsDeleted : DeleteResult → Type 0
IsDeleted result = (result.matched < 2 ^ 32) × (result.deleted < 2 ^ 32)

abbrev pub deleted_octets : DeleteResult → Bytes
deleted_octets result =
    tlv_octets (context_tag 0 false) (encode_unsigned result.matched)
    ++ (tlv_octets (context_tag 1 false) (encode_unsigned result.deleted) ++ [])

pub encode_delete_response-Appends :
    (result : DeleteResult)
    → Appends
        (encode_delete_response result)
        (tlv_octets delete_named_variable_list (deleted_octets result))
unfolding encode_delete_response
encode_delete_response-Appends result = Appends-tlv delete_named_variable_list _ _ (
    Appends-then _ _ _ _ (Appends-unsigned (context_tag 0 false) result.matched)
      (Appends-last _ _ (Appends-unsigned (context_tag 1 false) result.deleted)))

pub decode_delete_response-octets :
    (result : DeleteResult)
    → IsDeleted result
    → length (deleted_octets result) < 2 ^ 64
    → decode_delete_response
        (record { tag = delete_named_variable_list; content = deleted_octets result })
      ≡ ok result
unfolding decode_delete_response expect_service tag_eq
decode_delete_response-octets result (matched, deleted) small =
    let matched_same : result.matched % 2 ^ 32 ≡ result.matched = omega (arith, matched) in
    let deleted_same : result.deleted % 2 ^ 32 ≡ result.deleted = omega (arith, deleted) in
    let (r₁, e₁, s₁, _) =
      expect_into (new (deleted_octets result)) (context_tag 0 false)
        (encode_unsigned result.matched) _ (omega arith) ([], refl, small) in
    let (_, e₂, _, _) =
      expect_into r₁ (context_tag 1 false) (encode_unsigned result.deleted) [] (omega arith) s₁ in
    rw
      (
        e₁,
        decode_unsigned-encode_unsigned result.matched (omega (arith, matched)),
        e₂,
        decode_unsigned-encode_unsigned result.deleted (omega (arith, deleted)),
        matched_same,
        deleted_same,
      )
      refl

pub decode_bool-encode_bool : (b : Bool) → decode_bool (encode_bool b) ≡ ok b
unfolding decode_bool encode_bool
decode_bool-encode_bool true = refl
decode_bool-encode_bool false = refl

abbrev pub attributes_octets : ListAttributes → Bytes
attributes_octets attributes =
    tlv_octets (context_tag 0 false) (encode_bool attributes.deletable)
    ++ (tlv_octets (context_tag 1 true) (each_octets variable_octets attributes.members) ++ [])

pub encode_get_attributes_response-Appends :
    (attributes : ListAttributes)
    → Appends
        (encode_get_attributes_response attributes)
        (tlv_octets get_named_variable_list_attributes (attributes_octets attributes))
unfolding encode_get_attributes_response
encode_get_attributes_response-Appends attributes =
    Appends-tlv get_named_variable_list_attributes _ _ (
      Appends-then _ _ _ _ (Appends-boolean (context_tag 0 false) attributes.deletable) (
        Appends-last _ _
          (Appends-tlv (context_tag 1 true) _ _ (write_members-Appends attributes.members))))

pub decode_get_attributes_response-octets :
    (s : Std) (attributes : ListAttributes)
    → All (IsVariable s) attributes.members
    → length (attributes_octets attributes) < 2 ^ 64
    → decode_get_attributes_response s (record {
      tag = get_named_variable_list_attributes;
      content = attributes_octets attributes;
    })
      ≡ ok attributes
unfolding decode_get_attributes_response expect_service tag_eq
decode_get_attributes_response-octets s attributes hs small =
    let list : Bytes = each_octets variable_octets attributes.members in
    let (r₁, e₁, s₁, _) =
      expect_into (new (attributes_octets attributes)) (context_tag 0 false)
        (encode_bool attributes.deletable) _ (omega arith) ([], refl, small) in
    let (_, e₂, _, inside) = expect_into r₁ (context_tag 1 true) list [] (omega arith) s₁ in
    rw
      (
        e₁,
        decode_bool-encode_bool attributes.deletable,
        e₂,
        parse_list_of_variable_spec-octets s attributes.members hs inside,
      )
      refl

pub write_get_attributes_request-Appends :
    (name : Variable)
    → Appends
        (write_get_attributes_request name)
        (tlv_octets get_named_variable_list_attributes (specific_octets name))
unfolding write_get_attributes_request
write_get_attributes_request-Appends name =
    Appends-tlv get_named_variable_list_attributes _ _ (write_object_name-Appends name)

pub decode_get_attributes_request-octets :
    (s : Std) (name : Variable)
    → IsVariable s name
    → length (specific_octets name) < 2 ^ 64
    → decode_get_attributes_request s
        (record { tag = get_named_variable_list_attributes; content = specific_octets name })
      ≡ ok name
unfolding decode_get_attributes_request expect_service tag_eq
decode_get_attributes_request-octets s name h small =
    read_object_name-octets s name h ([], refl, small)
