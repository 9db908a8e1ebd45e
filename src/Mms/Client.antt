-- ===== src/Mms/Client.antt =====
-- crates/iec61850-mms/src/client.rs: what the client does with a connection. A request and its response are a function of
-- the connection.
pub mod Browsing
pub mod Directory
use iec_61850_studio.Base.{
  ℕ, zero, suc, List, [], ◌∷◌, ◌++◌, Option, none, some, Bool, true, false, if◌then◌else◌,
}
use iec_61850_studio.Base.Result.{ok, err, ◌>>=◌}
use iec_61850_studio.Base.Words.{Bytes}
use iec_61850_studio.Transport.Error.{MmsResult, out_of_fuel}
use iec_61850_studio.Mms.NameList.{
  ObjectClass, ObjectScope, GetNameListRequest, GetNameListResponse,
}

-- `slice.last()`
unfoldable pub last : List Bytes → Option Bytes
last [] = none
last (x ∷ []) = some x
last (x ∷ y ∷ ys) = last (y ∷ ys)

-- `match (page.more_follows, last)`
abbrev pub next_cursor : Bool → Option Bytes → Option Bytes
next_cursor true l = l
next_cursor false l = none

-- The names are complete, or the loop goes on behind the last one.
abbrev pub after_page :
    Option Bytes → List Bytes → (Bytes → MmsResult (List Bytes)) → MmsResult (List Bytes)
after_page none names again = ok names
after_page (some l) names again = again l

-- The loop of `get_name_list_all`, one request per round; `ask` is the request and its answer.
unfoldable pub name_list_loop :
    (GetNameListRequest → MmsResult GetNameListResponse)
    → ObjectClass
    → ObjectScope
    → ℕ
    → Option Bytes
    → List Bytes
    → MmsResult (List Bytes)
name_list_loop ask class scope zero continue_after out = err out_of_fuel
name_list_loop ask class scope (suc n) continue_after out = do
  page ← ask (record { class = class; scope = scope; continue_after = continue_after })
  let names = out ++ page.identifiers
  after_page (next_cursor page.more_follows (last page.identifiers)) names
      (λ l. name_list_loop ask class scope n (some l) names)

unfoldable pub get_name_list_all :
    (GetNameListRequest → MmsResult GetNameListResponse)
    → ℕ
    → ObjectClass
    → ObjectScope
    → MmsResult (List Bytes)
get_name_list_all ask rounds class scope = name_list_loop ask class scope rounds none []
