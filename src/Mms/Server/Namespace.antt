-- ===== src/Mms/Server/Namespace.antt =====
-- crates/iec61850-mms/src/server.rs: the names that the server lists, page by page. A map from domains to their items is
-- an association list. `sort` and `str` compare octet by octet.
pub mod Paging
use iec_61850_studio.Base.{
  ℕ, zero, suc, ◌+◌, ◌-◌, min, max, List, [], ◌∷◌, Option, none, some, Bool, true, false, length,
  take, drop, ltb, ◌==◌, if◌then◌else◌,
}
use iec_61850_studio.Base.Words.{Bytes}
use iec_61850_studio.Base.Maps.{get}
use iec_61850_studio.Mms.NameList.{
  ObjectClass, ObjectScope, named_variable, domain, vmd_specific, domain_specific,
  GetNameListRequest, GetNameListResponse,
}

pub record Namespace : Type 0 where
  pub domains : List Bytes
  pub items : List (Bytes × List Bytes)
  pub page_size : ℕ

unfoldable pub with_page_size : Namespace → ℕ → Namespace
with_page_size model n = record model { page_size = max n 1 }

unfoldable pub items_of : Namespace → Bytes → Option (List Bytes)
items_of model d = get model.items d

-- `a <= b` on texts
unfoldable pub text_le : Bytes → Bytes → Bool
text_le [] b = true
text_le (x ∷ a) [] = false
text_le (x ∷ a) (y ∷ b) =
    let tails = text_le a b in if ltb x y then true else if x == y then tails else false

-- `slice.partition_point(test)`, on a slice whose first elements pass the test and whose others fail it.
unfoldable pub partition_point : (Bytes → Bool) → List Bytes → ℕ
partition_point test [] = 0
partition_point test (x ∷ xs) =
    let later = suc (partition_point test xs) in if test x then later else 0

abbrev pub or_nothing : Option (List Bytes) → List Bytes
or_nothing none = []
or_nothing (some names) = names

-- The names that a request is about.
unfoldable pub name_source : Namespace → ObjectClass → ObjectScope → List Bytes
name_source model domain vmd_specific = model.domains
name_source model named_variable (domain_specific d) = or_nothing (items_of model d)
name_source model named_variable vmd_specific = []
name_source model domain (domain_specific d) = []

abbrev pub start_after : List Bytes → Option Bytes → ℕ
start_after source none = 0
start_after source (some ca) = partition_point (λ x. text_le x ca) source

abbrev pub page_of : ℕ → List Bytes → ℕ → GetNameListResponse
page_of page_size source start =
    let end = min (start + page_size) (length source) in
    record {
      identifiers = take (end - start) (drop start source);
      more_follows = ltb end (length source);
    }

unfoldable pub build_name_list : Namespace → GetNameListRequest → GetNameListResponse
build_name_list model req =
    let source = name_source model req.class req.scope in
    page_of model.page_size source (start_after source req.continue_after)
