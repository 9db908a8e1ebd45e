-- ===== src/Mms/Services.antt =====
-- The services of the association: a request reaches the server, and an answer the client, as they were meant.
use iec_61850_studio.Base.{Bool, List, [], ◌∷◌, All, true, ◌≡◌, arith}
use iec_61850_studio.Ber.Std.{Std, IsIeee}
use iec_61850_studio.Mms.Pdu.Variables.{Variable, IsVariable}
use iec_61850_studio.Mms.Carried.{Carries, IsSized, Carries-IsSized}
use iec_61850_studio.Mms.NameList
use iec_61850_studio.Mms.NameList.RoundTrip.{IsScope, IsText}
use iec_61850_studio.Mms.NameList.RoundTrip as Names
use iec_61850_studio.Mms.Journal
use iec_61850_studio.Mms.Journal.RoundTrip.{IsEntry}
use iec_61850_studio.Mms.Journal.RoundTrip as Logs
use iec_61850_studio.Mms.Read
use iec_61850_studio.Mms.Read.RoundTrip as Reading
use iec_61850_studio.Mms.Read.Results
use iec_61850_studio.Mms.Write
use iec_61850_studio.Mms.Write.RoundTrip as Writing
use iec_61850_studio.Mms.VariableLists
use iec_61850_studio.Mms.VariableLists.RoundTrip.{IsDeleted}
use iec_61850_studio.Mms.VariableLists.RoundTrip as Lists

-- `GetNameList`: the server reads the request of the client, and the client the page of the server. The texts are UTF-8, and
-- both below 2 ^ 64 octets.
pub get_name_list-Carries :
    (s : Std) (req : NameList.GetNameListRequest) (resp : NameList.GetNameListResponse)
    → IsScope s req.scope
    → IsText s req.continue_after
    → All (λ id. s.utf8 id ≡ true) resp.identifiers
    → IsSized (NameList.write_request req)
    → IsSized (NameList.encode_response resp)
    → Carries (NameList.write_request req) (NameList.decode_request s) req
      × Carries (NameList.encode_response resp) (NameList.decode_response s) resp
get_name_list-Carries s req resp scope text ids asked answered = (
  Carries-IsSized _ (NameList.decode_request s) req _ _ (omega arith)
      (Names.write_request-Appends req) (Names.decode_request-write_request s req scope text) asked,
  Carries-IsSized _ (NameList.decode_response s) resp _ _ (omega arith)
      (Names.encode_response-Appends resp) (Names.decode_response-encode_response s resp ids)
      answered,
)

-- Dynamic data sets: the server reads which list to define, with which members, and which to delete or to describe, and the client the counts of the deletion and
-- the description. The texts are UTF-8, the counts of 32 bits, and each below 2 ^ 64 octets.
pub variable_list-Carries :
    (s : Std) (name : Variable) (members : List Variable) (result : VariableLists.DeleteResult)
    (attributes : VariableLists.ListAttributes)
    → IsVariable s name
    → All (IsVariable s) members
    → All (IsVariable s) attributes.members
    → IsDeleted result
    → IsSized (VariableLists.write_define_request name members)
    → IsSized (VariableLists.write_delete_request name)
    → IsSized (VariableLists.encode_delete_response result)
    → IsSized (VariableLists.write_get_attributes_request name)
    → IsSized (VariableLists.encode_get_attributes_response attributes)
    → Carries
        (VariableLists.write_define_request name members)
        (VariableLists.decode_define_request s)
        (name, members)
      × Carries
          (VariableLists.write_delete_request name)
          (VariableLists.decode_delete_request s)
          (name ∷ [])
      × Carries
          (VariableLists.encode_delete_response result)
          VariableLists.decode_delete_response
          result
      × Carries
          (VariableLists.write_get_attributes_request name)
          (VariableLists.decode_get_attributes_request s)
          name
      × Carries
          (VariableLists.encode_get_attributes_response attributes)
          (VariableLists.decode_get_attributes_response s)
          attributes
variable_list-Carries s name members result attributes h hs ha hr s₁ s₂ s₃ s₄ s₅ = (
  Carries-IsSized _ (VariableLists.decode_define_request s) (name, members) _ _ (omega arith)
      (Lists.write_define_request-Appends name members)
      (Lists.decode_define_request-octets s name members h hs) s₁,
  Carries-IsSized _ (VariableLists.decode_delete_request s) (name ∷ []) _ _ (omega arith)
      (Lists.write_delete_request-Appends name) (Lists.decode_delete_request-octets s name h) s₂,
  Carries-IsSized _ VariableLists.decode_delete_response result _ _ (omega arith)
      (Lists.encode_delete_response-Appends result) (Lists.decode_delete_response-octets result hr)
      s₃,
  Carries-IsSized _ (VariableLists.decode_get_attributes_request s) name _ _ (omega arith)
      (Lists.write_get_attributes_request-Appends name)
      (Lists.decode_get_attributes_request-octets s name h) s₄,
  Carries-IsSized _ (VariableLists.decode_get_attributes_response s) attributes _ _ (omega arith)
      (Lists.encode_get_attributes_response-Appends attributes)
      (Lists.decode_get_attributes_response-octets s attributes ha) s₅,
)

-- `ReadJournal`: the server reads which log is asked for, and the client the entries in their order, each with its identifier, its time and its
-- values, and whether more follow. The texts are UTF-8, the library keeps `IsIeee`, the values are of the Rust type and nest at most 32 levels,
-- and both messages are below 2 ^ 64 octets.
pub journal-Carries :
    (s : Std) (v : Variable) (entries : List Journal.JournalEntry) (more : Bool)
    → IsIeee s
    → IsVariable s v
    → All (IsEntry s) entries
    → IsSized (Journal.write_request v.0 v.1)
    → IsSized (Journal.encode_response s entries more)
    → Carries (Journal.write_request v.0 v.1) (Journal.decode_request s) v
      × Carries (Journal.encode_response s entries more) (Journal.decode_response s) (entries, more)
journal-Carries s v entries more ieee h hs asked answered = (
  Carries-IsSized _ (Journal.decode_request s) v _ _ (omega arith) (Logs.write_request-Appends v)
      (Logs.decode_request-octets s v h) asked,
  Carries-IsSized _ (Journal.decode_response s) (entries, more) _ _ (omega arith)
      (Logs.encode_response-Appends s entries more)
      (Logs.decode_response-octets s entries more ieee hs) answered,
)
