-- ===== src/Mms/VariableLists.antt =====
-- crates/iec61850-mms/src/mms/named_var_list.rs: dynamic datasets. `DefineNamedVariableList`,
-- `DeleteNamedVariableList` and `GetNamedVariableListAttributes`.
pub mod RoundTrip
use iec_61850_studio.Base.{ℕ, ◌%◌, ◌^◌, List, [], ◌∷◌, Option, none, some, Bool, true, false}
use iec_61850_studio.Base.Result.{ok, err, ◌>>=◌}
use iec_61850_studio.Base.Words.{Bytes}
use iec_61850_studio.Ber.Error.{Tag}
use iec_61850_studio.Ber.Primitives.{decode_unsigned, decode_bool}
use iec_61850_studio.Ber.Reader.{Tlv, BerReader, new, read_tlv, expect, read_if}
use iec_61850_studio.Ber.Writer.{
  BerWriter, tlv, integer, unsigned, boolean, visible_string, sequence,
}
use iec_61850_studio.Ber.Std.{Std}
use iec_61850_studio.Ber.Nested.{write_each}
use iec_61850_studio.Mms.Loop.{read_each}
use iec_61850_studio.Mms.Pdu.{context_tag, visible_string_tag, from_ber, read_text, expect_service}
use iec_61850_studio.Transport.Error.{MmsResult}

-- `service` of crates/iec61850-mms/src/mms/pdu.rs
abbrev pub define_named_variable_list : Tag
define_named_variable_list = context_tag 11 true

abbrev pub define_named_variable_list_response : Tag
define_named_variable_list_response = context_tag 11 false

abbrev pub get_named_variable_list_attributes : Tag
get_named_variable_list_attributes = context_tag 12 true

abbrev pub delete_named_variable_list : Tag
delete_named_variable_list = context_tag 13 true

abbrev pub write_object_name : (Bytes × Bytes) → BerWriter → BerWriter
write_object_name (domain, item) w =
    tlv w (context_tag 1 true)
      λ b. visible_string (visible_string b visible_string_tag domain) visible_string_tag item

abbrev pub write_variable_spec : (Bytes × Bytes) → BerWriter → BerWriter
write_variable_spec name w = tlv w (context_tag 0 true) (write_object_name name)

-- The domain and the item of a domain-specific name.
unfoldable pub read_object_name_inner_from_ds : Std → Bytes → MmsResult (Bytes × Bytes)
read_object_name_inner_from_ds s ds_content = do
  (domain, dr) ← read_text s (new ds_content) visible_string_tag
  (item, _) ← read_text s dr visible_string_tag
  ok (domain, item)

unfoldable pub read_object_name : Std → Bytes → MmsResult (Bytes × Bytes)
read_object_name s content = do
  (ds, _) ← from_ber (expect (new content) (context_tag 1 true))
  read_object_name_inner_from_ds s ds

-- One round of the loop below.
unfoldable pub read_variable_spec : Std → BerReader → MmsResult ((Bytes × Bytes) × BerReader)
read_variable_spec s lr = do
  (seq, lr') ← from_ber (read_tlv lr)
  (name, _) ← from_ber (expect (new seq.content) (context_tag 0 true))
  variable ← read_object_name s name
  ok (variable, lr')

unfoldable pub parse_list_of_variable_spec : Std → Bytes → MmsResult (List (Bytes × Bytes))
parse_list_of_variable_spec s content = read_each (read_variable_spec s) content

-- A loop over the members of a list.
abbrev pub write_members : List (Bytes × Bytes) → BerWriter → BerWriter
write_members members = write_each (λ m w. sequence w (write_variable_spec m)) members

unfoldable pub write_define_request : (Bytes × Bytes) → List (Bytes × Bytes) → BerWriter → BerWriter
write_define_request name members w =
    tlv w define_named_variable_list
      λ b. tlv (write_object_name name b) (context_tag 0 true) (write_members members)

unfoldable pub decode_define_request :
    Std → Tlv → MmsResult ((Bytes × Bytes) × List (Bytes × Bytes))
decode_define_request s service_tlv = do
  content ← expect_service service_tlv define_named_variable_list
  (name_tlv, r) ← from_ber (expect (new content) (context_tag 1 true))
  name ← read_object_name_inner_from_ds s name_tlv
  (list, _) ← from_ber (expect r (context_tag 0 true))
  members ← parse_list_of_variable_spec s list
  ok (name, members)

unfoldable pub encode_define_response : BerWriter → BerWriter
encode_define_response w = tlv w define_named_variable_list_response (λ b. b)

unfoldable pub write_delete_request : (Bytes × Bytes) → BerWriter → BerWriter
write_delete_request name w =
    tlv w delete_named_variable_list
      λ b. tlv (integer b (context_tag 0 false) 0) (context_tag 1 true) (write_object_name name)

pub record DeleteResult : Type 0 where
  pub matched : ℕ
  pub deleted : ℕ

-- One round of the loop of `decode_delete_request`.
unfoldable pub read_list_name : Std → BerReader → MmsResult ((Bytes × Bytes) × BerReader)
read_list_name s lr = do
  (name, lr') ← from_ber (expect lr (context_tag 1 true))
  list ← read_object_name_inner_from_ds s name
  ok (list, lr')

abbrev pub list_names : Std → Option Bytes → MmsResult (List (Bytes × Bytes))
list_names s none = ok []
list_names s (some list) = read_each (read_list_name s) list

unfoldable pub decode_delete_request : Std → Tlv → MmsResult (List (Bytes × Bytes))
decode_delete_request s service_tlv = do
  content ← expect_service service_tlv delete_named_variable_list
  (_, r) ← from_ber (read_if (new content) (context_tag 0 false))
  (list, _) ← from_ber (read_if r (context_tag 1 true))
  list_names s list

unfoldable pub encode_delete_response : DeleteResult → BerWriter → BerWriter
encode_delete_response result w = tlv w delete_named_variable_list λ b.
    unsigned (unsigned b (context_tag 0 false) result.matched) (context_tag 1 false) result.deleted

unfoldable pub decode_delete_response : Tlv → MmsResult DeleteResult
decode_delete_response service_tlv = do
  content ← expect_service service_tlv delete_named_variable_list
  (c₁, r) ← from_ber (expect (new content) (context_tag 0 false))
  matched ← from_ber (decode_unsigned c₁)
  (c₂, _) ← from_ber (expect r (context_tag 1 false))
  deleted ← from_ber (decode_unsigned c₂)
  ok (record { matched = matched % 2 ^ 32; deleted = deleted % 2 ^ 32 })

unfoldable pub write_get_attributes_request : (Bytes × Bytes) → BerWriter → BerWriter
write_get_attributes_request name w =
    tlv w get_named_variable_list_attributes (write_object_name name)

pub record ListAttributes : Type 0 where
  pub deletable : Bool
  pub members : List (Bytes × Bytes)

unfoldable pub decode_get_attributes_request : Std → Tlv → MmsResult (Bytes × Bytes)
decode_get_attributes_request s service_tlv = do
  content ← expect_service service_tlv get_named_variable_list_attributes
  read_object_name s content

unfoldable pub encode_get_attributes_response : ListAttributes → BerWriter → BerWriter
encode_get_attributes_response attributes w = tlv w get_named_variable_list_attributes λ b.
    tlv (boolean b (context_tag 0 false) attributes.deletable) (context_tag 1 true)
      (write_members attributes.members)

unfoldable pub decode_get_attributes_response : Std → Tlv → MmsResult ListAttributes
decode_get_attributes_response s service_tlv = do
  content ← expect_service service_tlv get_named_variable_list_attributes
  (c, r) ← from_ber (expect (new content) (context_tag 0 false))
  deletable ← from_ber (decode_bool c)
  (list, _) ← from_ber (expect r (context_tag 1 true))
  members ← parse_list_of_variable_spec s list
  ok (record { deletable = deletable; members = members })
