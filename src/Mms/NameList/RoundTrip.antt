-- ===== src/Mms/NameList/RoundTrip.antt =====
-- Requests and pages of GetNameList arrive as they were sent.
use iec_61850_studio.Base.{
  ◌<◌, ◌^◌, [], ◌++◌, Option, none, some, Bool, true, false, length, All, ◌≡◌, refl, arith, inl,
}
use iec_61850_studio.Base.Result.{ok}
use iec_61850_studio.Base.Words.{Bytes}
use iec_61850_studio.Ber.Tag.{tag_eq}
use iec_61850_studio.Ber.Primitives.{
  encode_integer, decode_integer, decode_visible_string, encode_bool, decode_bool,
}
use iec_61850_studio.Ber.Primitives.Integer.{decode_integer-encode_integer}
use iec_61850_studio.Ber.Std.{Std}
use iec_61850_studio.Ber.Reader
use iec_61850_studio.Ber.Reader.{BerReader, Tlv, new}
use iec_61850_studio.Ber.Writer.Laws.{tlv_octets}
use iec_61850_studio.Ber.Fields.{Stands, option_octets, read_if_step, octet_string_if-append}
use iec_61850_studio.Ber.Nested.{
  Appends, Appends-then, Appends-last, Appends-tlv, Appends-integer, Appends-null, Appends-visible,
  Appends-boolean, Appends-each, each_octets, expect_into, read_tlv_into, Stands-last,
  tlv_octets_some,
}
use iec_61850_studio.Mms.Loop.{read_each-octets}
use iec_61850_studio.Mms.Pdu.{context_tag, visible_string_tag, read_text, expect_service, from_ber}
use iec_61850_studio.Mms.Pdu.Variables.{read_text_step}
use iec_61850_studio.Mms.NameList.{
  ObjectClass, ObjectScope, named_variable, domain, vmd_specific, domain_specific,
  GetNameListRequest, GetNameListResponse, get_name_list, class_code, class_from_code, write_scope,
  write_request, scope_of, optional_text, decode_request, encode_response, more_or_true,
  decode_response,
}

-- The texts of a request are texts.
abbrev pub IsScope : Std → ObjectScope → Type 0
IsScope s vmd_specific = Unit {0}
IsScope s (domain_specific d) = s.utf8 d ≡ true

abbrev pub IsText : Std → Option Bytes → Type 0
IsText s none = Unit {0}
IsText s (some c) = s.utf8 c ≡ true

-- The content of a request.
abbrev scope_octets : ObjectScope → Bytes
scope_octets vmd_specific = tlv_octets (context_tag 0 false) []
scope_octets (domain_specific d) = tlv_octets (context_tag 1 false) d

abbrev class_octets : ObjectClass → Bytes
class_octets c = tlv_octets (context_tag 0 false) (encode_integer (class_code c))

abbrev pub request_octets : GetNameListRequest → Bytes
request_octets req =
    tlv_octets (context_tag 0 true) (class_octets req.class)
    ++ (tlv_octets (context_tag 1 true) (scope_octets req.scope)
        ++ (option_octets (context_tag 2 false) req.continue_after ++ []))

write_scope-Appends : (scope : ObjectScope) → Appends (write_scope scope) (scope_octets scope)
write_scope-Appends vmd_specific = Appends-null (context_tag 0 false)
write_scope-Appends (domain_specific d) = Appends-visible (context_tag 1 false) d

pub write_request-Appends :
    (req : GetNameListRequest)
    → Appends (write_request req) (tlv_octets get_name_list (request_octets req))
unfolding write_request
write_request-Appends req = Appends-tlv get_name_list _ (request_octets req) (
    Appends-then _ _ _ _
      (Appends-tlv (context_tag 0 true) _ _
        (Appends-integer (context_tag 0 false) (class_code req.class)))
      (Appends-then _ _ _ _ (Appends-tlv (context_tag 1 true) _ _ (write_scope-Appends req.scope)) (
        Appends-last _ _ (λ w. octet_string_if-append w (context_tag 2 false) req.continue_after))))

class_content :
    (c : ObjectClass)
    → from_ber (decode_integer (encode_integer (class_code c))) ≡ ok (class_code c)
unfolding class_code
class_content named_variable = rw (decode_integer-encode_integer 0 (omega arith)) refl
class_content domain = rw (decode_integer-encode_integer 9 (omega arith)) refl

class_from_code-class_code : (c : ObjectClass) → class_from_code (class_code c) ≡ ok c
unfolding class_code
class_from_code-class_code named_variable = refl
class_from_code-class_code domain = refl

-- The choice of the scope, behind any cursor.
read_scope :
    (s : Std) (scope : ObjectScope)
    → IsScope s scope
    → Stands (new (scope_octets scope)) (scope_octets scope)
    → (t : Tlv) × (r' : BerReader) × (Reader.read_tlv (new (scope_octets scope)) ≡ ok (t, r'))
      × (scope_of s t ≡ ok scope)
unfolding tag_eq decode_visible_string
read_scope s vmd_specific h stands =
    let (r', e, _, _) =
      read_tlv_into _ (context_tag 0 false) [] [] (omega arith)
        (Stands-last _ (context_tag 0 false) [] stands) in
    (record { tag = context_tag 0 false; content = [] }, r', e, refl)
read_scope s (domain_specific d) h stands =
    let (r', e, _, _) =
      read_tlv_into _ (context_tag 1 false) d [] (omega arith) (Stands-last _ _ _ stands) in
    (record { tag = context_tag 1 false; content = d }, r', e, rw h refl)

text_content : (s : Std) (o : Option Bytes) → IsText s o → optional_text s o ≡ ok o
unfolding decode_visible_string
text_content s none h = refl
text_content s (some c) h = rw h refl

-- A request with texts for its names: the server reads from what the client wrote the request.
pub decode_request-write_request :
    (s : Std) (req : GetNameListRequest)
    → IsScope s req.scope
    → IsText s req.continue_after
    → length (request_octets req) < 2 ^ 64
    → decode_request s (record { tag = get_name_list; content = request_octets req }) ≡ ok req
unfolding decode_request expect_service tag_eq
decode_request-write_request s req hs ht small =
    let after : Bytes = option_octets (context_tag 2 false) req.continue_after ++ [] in
    let scope : Bytes = scope_octets req.scope in
    let class : Bytes = class_octets req.class in
    let (r₁, e₀, s₁, inside) =
      expect_into (new (request_octets req)) (context_tag 0 true) class
        (tlv_octets (context_tag 1 true) scope ++ after) (omega arith) ([], refl, small) in
    let (_, e₁, _, _) =
      expect_into _ (context_tag 0 false) (encode_integer (class_code req.class)) [] (omega arith)
        (Stands-last _ _ _ inside) in
    let (r₂, e₂, s₂, inside') = expect_into r₁ (context_tag 1 true) scope after (omega arith) s₁ in
    let (t, _, e₃, is_scope) = read_scope s req.scope hs inside' in
    let (_, e₄, _) =
      read_if_step r₂ (context_tag 2 false) req.continue_after [] (omega arith) (inl refl) s₂ in
    rw
      (
        e₀,
        e₁,
        class_content req.class,
        class_from_code-class_code req.class,
        e₂,
        e₃,
        is_scope,
        e₄,
        text_content s req.continue_after ht,
      )
      refl

-- The content of a page.
abbrev id_octets : Bytes → Bytes
id_octets id = tlv_octets visible_string_tag id

abbrev pub page_octets : GetNameListResponse → Bytes
page_octets resp =
    tlv_octets (context_tag 0 true) (each_octets id_octets resp.identifiers)
    ++ (tlv_octets (context_tag 1 false) (encode_bool resp.more_follows) ++ [])

pub encode_response-Appends :
    (resp : GetNameListResponse)
    → Appends (encode_response resp) (tlv_octets get_name_list (page_octets resp))
unfolding encode_response
encode_response-Appends resp = Appends-tlv get_name_list _ (page_octets resp) (
    Appends-then _ _ _ _
      (Appends-tlv (context_tag 0 true) _ _
        (Appends-each _ id_octets (λ id. Appends-visible visible_string_tag id) resp.identifiers))
      (Appends-last _ _ (Appends-boolean (context_tag 1 false) resp.more_follows)))

bool_content : (b : Bool) → more_or_true (some (encode_bool b)) ≡ ok b
unfolding decode_bool encode_bool
bool_content true = refl
bool_content false = refl

-- A page of texts: the client reads from what the server wrote the identifiers in their order, and whether more follow.
pub decode_response-encode_response :
    (s : Std) (resp : GetNameListResponse)
    → All (λ id. s.utf8 id ≡ true) resp.identifiers
    → length (page_octets resp) < 2 ^ 64
    → decode_response s (record { tag = get_name_list; content = page_octets resp }) ≡ ok resp
unfolding decode_response expect_service tag_eq
decode_response-encode_response s resp h small =
    let list : Bytes = each_octets id_octets resp.identifiers in
    let more : Bytes = encode_bool resp.more_follows in
    let (r₁, e₀, s₁, inside) =
      expect_into (new (page_octets resp)) (context_tag 0 true) list
        (tlv_octets (context_tag 1 false) more ++ []) (omega arith) ([], refl, small) in
    let e₁ =
      read_each-octets (λ lr. read_text s lr visible_string_tag) id_octets (λ id. s.utf8 id ≡ true)
        (λ id r rest ok_id stands.
          read_text_step s r visible_string_tag id rest (omega arith) ok_id stands)
        (λ id. tlv_octets_some visible_string_tag id) resp.identifiers h inside in
    let (_, e₂, _) =
      read_if_step r₁ (context_tag 1 false) (some more) [] (omega arith) (inl refl) s₁ in
    rw (e₀, e₁, e₂, bool_content resp.more_follows) refl
