-- ===== src/Tests/Services.antt =====
-- The services on concrete input.
use iec_61850_studio.Base.{
  ◌^◌, List, [], ◌∷◌, All, Option, none, some, true, length, ltb, ◌≡◌, refl, arith,
}
use iec_61850_studio.Base.Result.{ok}
use iec_61850_studio.Base.Words.{Bytes}
use iec_61850_studio.Ber.Tag
use iec_61850_studio.Ber.Length.{encode_len}
use iec_61850_studio.Ber.Primitives.{
  encode_integer, encode_unsigned, encode_bool, strip_integer, sign_octet, strip_zeros,
}
use iec_61850_studio.Ber.Reader.{Tlv}
use iec_61850_studio.Ber.Writer.{
  tlv, integer, unsigned, boolean, primitive, null, sequence, octet_string, visible_string,
}
use iec_61850_studio.Ber.Data.{bool, encode}
use iec_61850_studio.Transport.Error.{object_access_denied, to_code}
use iec_61850_studio.Mms.Pdu.{
  encode_confirmed_request, encode_confirmed_response, parse_confirmed_request,
  parse_confirmed_response,
}
use iec_61850_studio.Mms.Pdu.Variables.{Variable}
use iec_61850_studio.Mms.NameList.{
  ObjectClass, ObjectScope, named_variable, domain, vmd_specific, domain_specific,
  GetNameListRequest, GetNameListResponse,
}
use iec_61850_studio.Mms.NameList
use iec_61850_studio.Mms.Server.Namespace.{
  Namespace, name_source, build_name_list, text_le, partition_point,
}
use iec_61850_studio.Mms.Client.{get_name_list_all}
use iec_61850_studio.Mms.Client.Directory.{CanSend, exchange, get_name_list_all-names}
use iec_61850_studio.Mms.Server.Store.{WriteResult, success, failure}
use iec_61850_studio.Ber.Data.Shape.{IsEncodable, depth}
use iec_61850_studio.Mms.Read.{AccessResult}
use iec_61850_studio.Mms.Read
use iec_61850_studio.Base.{replicate, false}
use iec_61850_studio.Mms.Journal.{JournalEntry}
use iec_61850_studio.Mms.Journal
use iec_61850_studio.Mms.Journal.RoundTrip.{IsEntry}
use iec_61850_studio.Mms.Write
use iec_61850_studio.Mms.NameList.RoundTrip.{IsText}
use iec_61850_studio.Mms.Server.Namespace.Paging.{IsSorted}
use iec_61850_studio.Mms.VariableLists.{DeleteResult, ListAttributes}
use iec_61850_studio.Mms.VariableLists
use iec_61850_studio.Mms.Carried.{Carries}
use iec_61850_studio.Mms.Carried.Delivery.{confirmed-Carries}
use iec_61850_studio.Mms.Services.{variable_list-Carries, journal-Carries}
use iec_61850_studio.Tests.Codec.{halves, halves-IsIeee}

abbrev mode : Variable
mode = (76 ∷ 68 ∷ [], 77 ∷ 111 ∷ 100 ∷ [])

abbrev readings : List AccessResult
readings = Read.success (bool true) ∷ Read.failure object_access_denied ∷ []

abbrev written : List WriteResult
written = success ∷ failure object_access_denied ∷ []

abbrev deletion : DeleteResult
deletion = record { matched = 1; deleted = 1 }

abbrev description : ListAttributes
description = record { deletable = true; members = mode ∷ mode ∷ [] }

list_sizes :
    (ltb (length (VariableLists.write_define_request mode (mode ∷ []) [])) (2 ^ 64) ≡ true)
    × (ltb (length (VariableLists.write_delete_request mode [])) (2 ^ 64) ≡ true)
    × (ltb (length (VariableLists.encode_delete_response deletion [])) (2 ^ 64) ≡ true)
    × (ltb (length (VariableLists.write_get_attributes_request mode [])) (2 ^ 64) ≡ true)
    × (ltb (length (VariableLists.encode_get_attributes_response description [])) (2 ^ 64) ≡ true)
unfolding VariableLists.write_define_request VariableLists.write_delete_request
    VariableLists.encode_delete_response VariableLists.write_get_attributes_request
    VariableLists.encode_get_attributes_response tlv Tag.encode sequence visible_string primitive
    encode_len integer unsigned null encode_integer encode_unsigned strip_integer to_code encode
    boolean encode_bool sign_octet strip_zeros
list_sizes = (refl, refl, refl, refl, refl)

variable_list-Carries_example :
    Carries
      (VariableLists.write_define_request mode (mode ∷ []))
      (VariableLists.decode_define_request halves)
      (mode, mode ∷ [])
    × Carries
        (VariableLists.write_delete_request mode)
        (VariableLists.decode_delete_request halves)
        (mode ∷ [])
    × Carries
        (VariableLists.encode_delete_response deletion)
        VariableLists.decode_delete_response
        deletion
    × Carries
        (VariableLists.write_get_attributes_request mode)
        (VariableLists.decode_get_attributes_request halves)
        mode
    × Carries
        (VariableLists.encode_get_attributes_response description)
        (VariableLists.decode_get_attributes_response halves)
        description
variable_list-Carries_example =
    variable_list-Carries halves mode (mode ∷ []) deletion description (refl, refl)
      ((refl, refl), tt) ((refl, refl), ((refl, refl), tt)) (omega arith, omega arith)
      (ground (arith, list_sizes.0)) (ground (arith, list_sizes.1)) (ground (arith, list_sizes.2))
      (ground (arith, list_sizes.3)) (ground (arith, list_sizes.4))

confirmed_sizes :
    (ltb (length (encode_confirmed_request 7 (VariableLists.write_delete_request mode))) (2 ^ 64)
      ≡ true)
    × (ltb (length (encode_confirmed_response 7 (VariableLists.write_delete_request mode))) (2 ^ 64)
        ≡ true)
unfolding encode_confirmed_request encode_confirmed_response VariableLists.write_delete_request tlv
    Tag.encode sequence visible_string primitive encode_len integer unsigned null encode_integer
    encode_unsigned strip_integer to_code encode boolean encode_bool
confirmed_sizes = (refl, refl)

confirmed-Carries_example :
    (service : Tlv) × (parse_confirmed_request
        (encode_confirmed_request 7 (VariableLists.write_delete_request mode))
      ≡ ok (7, service))
    × (parse_confirmed_response
          (encode_confirmed_response 7 (VariableLists.write_delete_request mode))
        ≡ ok (7, service))
    × (VariableLists.decode_delete_request halves service ≡ ok (mode ∷ []))
confirmed-Carries_example =
    confirmed-Carries (VariableLists.write_delete_request mode)
      (VariableLists.decode_delete_request halves) (mode ∷ []) 7 variable_list-Carries_example.1
      (omega arith) (ground (arith, confirmed_sizes.0)) (ground (arith, confirmed_sizes.1))

-- Two domains, in pages of one name.
abbrev small_pages : Namespace
small_pages = record { domains = (65 ∷ []) ∷ (66 ∷ []) ∷ []; items = []; page_size = 1 }

abbrev asked : Option Bytes → GetNameListRequest
asked cursor = record { class = domain; scope = vmd_specific; continue_after = cursor }

abbrev Fits : Option Bytes → Type 0
Fits cursor =
    (ltb (length (encode_confirmed_request 7 (NameList.write_request (asked cursor)))) (2 ^ 64)
      ≡ true)
    × (ltb
          (length (
            encode_confirmed_response 7
              (NameList.encode_response (build_name_list small_pages (asked cursor)))))
          (2 ^ 64)
        ≡ true)

asked_Fits : Fits none × Fits (some (65 ∷ [])) × Fits (some (66 ∷ []))
unfolding encode_confirmed_request encode_confirmed_response NameList.write_request
    NameList.encode_response build_name_list name_source text_le partition_point NameList.class_code
    tlv Tag.encode sequence visible_string primitive encode_len integer unsigned null encode_integer
    encode_unsigned strip_integer to_code encode boolean encode_bool octet_string
asked_Fits = ((refl, refl), (refl, refl), (refl, refl))

can_ask :
    (cursor : Option Bytes)
    → Fits cursor
    → IsText halves cursor
    → All (λ name. halves.utf8 name ≡ true) (build_name_list small_pages (asked cursor)).identifiers
    → CanSend halves small_pages 7 (asked cursor)
can_ask cursor fits text texts = record {
  id_u32 = omega arith;
  scope_text = tt;
  cursor_text = text;
  page_texts = texts;
  request_fits = ground (arith, fits.0);
  page_fits = ground (arith, fits.1);
}

IsSorted-names : IsSorted (name_source small_pages domain vmd_specific)
unfolding name_source text_le
IsSorted-names = (((refl, refl), tt), (tt, tt))

pages_text :
    All (λ name. halves.utf8 name ≡ true) (build_name_list small_pages (asked none)).identifiers
    × All
        (λ name. halves.utf8 name ≡ true)
        (build_name_list small_pages (asked (some (65 ∷ [])))).identifiers
    × All
        (λ name. halves.utf8 name ≡ true)
        (build_name_list small_pages (asked (some (66 ∷ [])))).identifiers
unfolding build_name_list name_source text_le partition_point
pages_text = ((refl, tt), (refl, tt), tt)

can_ask_each :
    All
      (λ name. CanSend halves small_pages 7 (asked (some name)))
      (name_source small_pages domain vmd_specific)
unfolding name_source
can_ask_each = (
  can_ask (some (65 ∷ [])) asked_Fits.1 refl pages_text.1,
  (can_ask (some (66 ∷ [])) asked_Fits.2 refl pages_text.2, tt),
)

get_name_list_all-names_example :
    get_name_list_all (λ req. exchange halves small_pages 7 req) 3 domain vmd_specific
    ≡ ok (name_source small_pages domain vmd_specific)
unfolding name_source
get_name_list_all-names_example =
    get_name_list_all-names halves small_pages domain vmd_specific (λ _. 7) 3 IsSorted-names
      (omega arith) (can_ask none asked_Fits.0 tt pages_text.0) can_ask_each (omega arith)

abbrev logged : List JournalEntry
logged =
    record {
      entry_id = 1 ∷ [];
      occurrence_time = replicate 6 0;
      values = bool true ∷ bool false ∷ [];
    }
    ∷ record { entry_id = 2 ∷ []; occurrence_time = replicate 6 1; values = [] }
    ∷ []

logged_values : All (IsEntry halves) logged
unfolding IsEncodable depth
logged_values = (((tt, omega arith), ((tt, omega arith), tt)), (tt, tt))

journal_sizes :
    (ltb (length (Journal.write_request mode.0 mode.1 [])) (2 ^ 64) ≡ true)
    × (ltb (length (Journal.encode_response halves logged false [])) (2 ^ 64) ≡ true)
unfolding Journal.write_request Journal.encode_response tlv Tag.encode sequence visible_string
    primitive encode_len integer unsigned null encode_integer encode_unsigned strip_integer to_code
    encode boolean encode_bool octet_string
journal_sizes = (refl, refl)

journal-Carries_example :
    Carries (Journal.write_request mode.0 mode.1) (Journal.decode_request halves) mode
    × Carries
        (Journal.encode_response halves logged false)
        (Journal.decode_response halves)
        (logged, false)
journal-Carries_example =
    journal-Carries halves mode logged false halves-IsIeee (refl, refl) logged_values
      (ground (arith, journal_sizes.0)) (ground (arith, journal_sizes.1))
