-- ===== src/Mms/Client/Directory.antt =====
-- The client and the server at either end of a connection: the directory that the client gets, through the octets of every
-- request and every page, is the server's list of names.
use iec_61850_studio.Base.{
  ℕ, ◌≤◌, ◌<◌, ◌^◌, Option, none, some, true, length, All, ◌≡◌, refl, ◌∙◌, arith,
}
use iec_61850_studio.Base.Result.{ok, ◌>>=◌}
use iec_61850_studio.Base.Words.{Bytes}
use iec_61850_studio.Ber.Std.{Std}
use iec_61850_studio.Transport.Error.{MmsResult}
use iec_61850_studio.Mms.Pdu.{
  encode_confirmed_request, encode_confirmed_response, parse_confirmed_request,
  parse_confirmed_response,
}
use iec_61850_studio.Mms.Pdu.Wrapping.{
  content-le-request, content-le-response, parse_confirmed_request-encode,
  parse_confirmed_response-encode,
}
use iec_61850_studio.Mms.NameList.{
  ObjectClass, ObjectScope, GetNameListRequest, GetNameListResponse, get_name_list, write_request,
  encode_response, decode_response,
}
use iec_61850_studio.Mms.NameList.RoundTrip.{
  IsScope, IsText, request_octets, page_octets, write_request-Appends, decode_request-write_request,
  encode_response-Appends, decode_response-encode_response,
}
use iec_61850_studio.Mms.Server.Namespace.{
  Namespace, name_source, build_name_list, page_of, start_after,
}
use iec_61850_studio.Mms.Server.Namespace.Paging.{IsSorted}
use iec_61850_studio.Mms.Server.Answers.{handle_get_name_list}
use iec_61850_studio.Mms.Client.{get_name_list_all}
use iec_61850_studio.Mms.Client.Browsing.{get_name_list_all-pages}

-- A request of the client, the server's answer to it, and what the client reads from that.
pub exchange : Std → Namespace → ℕ → GetNameListRequest → MmsResult GetNameListResponse
exchange s model id req = do
  (invoke, service) ← parse_confirmed_request (encode_confirmed_request id (write_request req))
  (_, answer) ← parse_confirmed_response (handle_get_name_list s model invoke service)
  decode_response s answer

abbrev pub request_of : ObjectClass → ObjectScope → Option Bytes → GetNameListRequest
request_of class scope cursor = record { class = class; scope = scope; continue_after = cursor }

-- A request and its page that can be sent: texts, an identifier of 32 bits, and PDUs below 2 ^ 64 octets.
pub record CanSend (s : Std) (model : Namespace) (id : ℕ) (req : GetNameListRequest) : Type 0 where
  pub id_u32 : id < 2 ^ 32
  pub scope_text : IsScope s req.scope
  pub cursor_text : IsText s req.continue_after
  pub page_texts : All (λ name. s.utf8 name ≡ true) (build_name_list model req).identifiers
  pub request_fits : length (encode_confirmed_request id (write_request req)) < 2 ^ 64
  pub page_fits :
      length (encode_confirmed_response id (encode_response (build_name_list model req))) < 2 ^ 64

-- What the client reads is the page that the server built.
pub exchange-build_name_list :
    (s : Std) (model : Namespace) (id : ℕ) (req : GetNameListRequest)
    → CanSend s model id req
    → exchange s model id req ≡ ok (build_name_list model req)
unfolding exchange handle_get_name_list
exchange-build_name_list s model id req h =
    let page : GetNameListResponse = build_name_list model req in
    let writes = write_request-Appends req in
    let answers = encode_response-Appends page in
    let e₀ =
      parse_confirmed_request-encode id get_name_list (request_octets req) (write_request req)
        writes h.id_u32 (omega arith) h.request_fits in
    let request_small : length (request_octets req) < 2 ^ 64 = omega (
      arith,
      h.request_fits,
      content-le-request id get_name_list (request_octets req) (write_request req) writes,
    ) in
    let e₁ = decode_request-write_request s req h.scope_text h.cursor_text request_small in
    let e₂ =
      parse_confirmed_response-encode id get_name_list (page_octets page) (encode_response page)
        answers h.id_u32 (omega arith) h.page_fits in
    let page_small : length (page_octets page) < 2 ^ 64 = omega (
      arith,
      h.page_fits,
      content-le-response id get_name_list (page_octets page) (encode_response page) answers,
    ) in
    let e₃ = decode_response-encode_response s page h.page_texts page_small in rw (e₀, e₁, e₂) e₃

-- A class and a scope whose names are sorted, pages of one name at least, and messages that can be sent, each under an identifier
-- of its own: `get_name_list_all` returns exactly the names that the server has, with a round for each name and one
-- more.
pub get_name_list_all-names :
    (s : Std) (model : Namespace) (class : ObjectClass) (scope : ObjectScope)
    (ids : Option Bytes → ℕ) (rounds : ℕ)
    → IsSorted (name_source model class scope)
    → 1 ≤ model.page_size
    → CanSend s model (ids none) (request_of class scope none)
    → All
        (λ name. CanSend s model (ids (some name)) (request_of class scope (some name)))
        (name_source model class scope)
    → length (name_source model class scope) < rounds
    → get_name_list_all (λ req. exchange s model (ids req.continue_after) req) rounds class scope
      ≡ ok (name_source model class scope)
get_name_list_all-names s model class scope ids rounds sorted positive start names enough =
    get_name_list_all-pages (λ cursor. CanSend s model (ids cursor) (request_of class scope cursor))
      (λ req. exchange s model (ids req.continue_after) req) class scope model.page_size
      (name_source model class scope) rounds answers start names sorted positive enough
  where
    answers :
        (cursor : Option Bytes)
        → CanSend s model (ids cursor) (request_of class scope cursor)
        → exchange s model (ids cursor) (request_of class scope cursor)
          ≡ ok (
              page_of model.page_size
                (name_source model class scope)
                (start_after (name_source model class scope) cursor))
    answers cursor h =
        exchange-build_name_list s model (ids cursor) (request_of class scope cursor) h
        ∙ unfold build_name_list in refl
