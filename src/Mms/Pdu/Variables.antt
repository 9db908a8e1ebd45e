-- ===== src/Mms/Pdu/Variables.antt =====
-- The names of variables that a request carries are read back by the other side.
use iec_61850_studio.Base.{◌<◌, ◌^◌, List, [], ◌++◌, true, All, ◌≡◌, refl, arith}
use iec_61850_studio.Base.Result.{ok}
use iec_61850_studio.Base.Words.{Bytes}
use iec_61850_studio.Ber.Error.{Tag}
use iec_61850_studio.Ber.Primitives.{decode_visible_string}
use iec_61850_studio.Ber.Std.{Std}
use iec_61850_studio.Ber.Reader.{BerReader, new}
use iec_61850_studio.Ber.Writer.{visible_string, sequence_tag}
use iec_61850_studio.Ber.Writer.Laws.{tlv_octets}
use iec_61850_studio.Ber.Fields.{Stands}
use iec_61850_studio.Ber.Nested.{
  Appends, Appends-then, Appends-tlv, Appends-visible, Appends-sequence, Appends-last, expect_into,
  read_tlv_into, Stands-last, each_octets, tlv_octets_some,
}
use iec_61850_studio.Mms.Loop.{read_each-octets}
use iec_61850_studio.Mms.Pdu.{
  context_tag, visible_string_tag, read_text, read_domain_specific, read_variable,
  parse_list_of_variable, write_domain_specific, write_variable,
}

abbrev pub Variable : Type 0
Variable = Bytes × Bytes

-- A variable of the Rust type: two texts.
abbrev pub IsVariable : Std → Variable → Type 0
IsVariable s (domain, item) = (s.utf8 domain ≡ true) × (s.utf8 item ≡ true)

abbrev pub names_octets : Variable → Bytes
names_octets (domain, item) =
    tlv_octets visible_string_tag domain ++ (tlv_octets visible_string_tag item ++ [])

abbrev pub specific_octets : Variable → Bytes
specific_octets v = tlv_octets (context_tag 1 true) (names_octets v)

abbrev pub variable_octets : Variable → Bytes
variable_octets v = tlv_octets sequence_tag (tlv_octets (context_tag 0 true) (specific_octets v))

pub write_domain_specific-Appends :
    (domain item : Bytes)
    → Appends (write_domain_specific domain item) (specific_octets (domain, item))
write_domain_specific-Appends domain item =
    Appends-tlv (context_tag 1 true) _ (names_octets (domain, item)) (
      Appends-then (λ w. visible_string w visible_string_tag domain)
        (λ w. visible_string w visible_string_tag item) _ _
        (Appends-visible visible_string_tag domain)
        (Appends-last _ _ (Appends-visible visible_string_tag item)))

pub write_variable-Appends : (v : Variable) → Appends (write_variable v) (variable_octets v)
write_variable-Appends (domain, item) =
    Appends-sequence _ _
      (Appends-tlv (context_tag 0 true) _ _ (write_domain_specific-Appends domain item))

pub read_text_step :
    (s : Std) (r : BerReader) (tag : Tag) (text rest : Bytes)
    → tag.number < 2 ^ 32
    → s.utf8 text ≡ true
    → Stands r (tlv_octets tag text ++ rest)
    → (r' : BerReader) × (read_text s r tag ≡ ok (text, r')) × Stands r' rest
unfolding decode_visible_string
read_text_step s r tag text rest small h stands =
    let (r', e, stands', _) = expect_into r tag text rest small stands in
    (r', rw (e, h) refl, stands')

pub read_domain_specific_lem :
    (s : Std) (r : BerReader) (v : Variable) (rest : Bytes)
    → IsVariable s v
    → Stands r (specific_octets v ++ rest)
    → read_domain_specific s r ≡ ok v
unfolding read_domain_specific
read_domain_specific_lem s r (domain, item) rest (hd, hi) stands =
    let (r₁, e₀, _, inside) =
      expect_into r (context_tag 1 true) (names_octets (domain, item)) rest (omega arith) stands in
    let (r₂, e₁, s₂) = read_text_step s _ visible_string_tag domain _ (omega arith) hd inside in
    let (r₃, e₂, _) = read_text_step s r₂ visible_string_tag item [] (omega arith) hi s₂ in
    rw (e₀, e₁, e₂) refl

read_variable_step :
    (s : Std) (v : Variable) (r : BerReader) (rest : Bytes)
    → IsVariable s v
    → Stands r (variable_octets v ++ rest)
    → (r' : BerReader) × (read_variable s r ≡ ok (v, r')) × Stands r' rest
unfolding read_variable
read_variable_step s v r rest h stands =
    let content : Bytes = tlv_octets (context_tag 0 true) (specific_octets v) in
    let (r₁, e₀, s₁, inside) = read_tlv_into r sequence_tag content rest (omega arith) stands in
    let (_, e₁, _, inside') =
      expect_into _ (context_tag 0 true) (specific_octets v) [] (omega arith)
        (Stands-last _ _ _ inside) in
    let e₂ = read_domain_specific_lem s _ v [] h (Stands-last _ _ _ inside') in
    (r₁, rw (e₀, e₁, e₂) refl, s₁)

-- Any list of variables, each written as requests write it, is read back.
pub parse_list_of_variable-octets :
    (s : Std) (vs : List Variable)
    → All (IsVariable s) vs
    → Stands (new (each_octets variable_octets vs)) (each_octets variable_octets vs)
    → parse_list_of_variable s (each_octets variable_octets vs) ≡ ok vs
unfolding parse_list_of_variable
parse_list_of_variable-octets s vs h stands =
    read_each-octets (read_variable s) variable_octets (IsVariable s) (read_variable_step s)
      (λ v. tlv_octets_some sequence_tag _) vs h stands
