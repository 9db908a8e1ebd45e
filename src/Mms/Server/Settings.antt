-- ===== src/Mms/Server/Settings.antt =====
-- crates/iec61850-mms/src/server.rs: setting groups. The values of every group, and those being edited, stand in the
-- store under items of their own, which start with `@`.
pub mod Confirming
pub mod Editing
use iec_61850_studio.Base.{
  ℕ, zero, suc, ◌+◌, ◌/◌, ◌%◌, ◌^◌, List, [], ◌∷◌, ◌++◌, Option, none, some, Bool, true, false, ltb,
  leb, ◌&&◌, if◌then◌else◌, bytes_eq,
}
use iec_61850_studio.Base.Words.{Bytes}
use iec_61850_studio.Base.Maps.{get}
use iec_61850_studio.Base.PairMaps.{Key, find, put, remove}
use iec_61850_studio.Base.Strings.{split_once, strip_prefix, starts_with}
use iec_61850_studio.Ber.Data.{MmsData, bool, uint}
use iec_61850_studio.Transport.Error.{object_value_invalid, object_access_denied}
use iec_61850_studio.Mms.Server.Store.{
  Store, ValueChange, WriteResult, success, failure, apply_value,
}

-- The namespace, as far as it concerns setting groups: the base of the SGCB of a domain and its number of groups.
pub record SettingModel : Type 0 where
  pub sgcbs : List (Bytes × Bytes)
  pub sg_domains : List (Bytes × ℕ)

pub record SettingRef : Type 0 where
  pub editable : Bool
  pub canonical : Bytes
  pub num_of_sgs : ℕ

-- The decimal digits of a `u32`, in front of `acc`.
unfoldable pub digits : ℕ → ℕ → Bytes → Bytes
digits zero n acc = acc
digits (suc k) n acc =
    let more = digits k (n / 10) ((48 + n % 10) ∷ acc) in if ltb n 10 then (48 + n) ∷ acc else more

abbrev pub decimal : ℕ → Bytes
decimal n = digits 10 n []

-- "@sg@" and "@se@"
abbrev pub sg_mark : Bytes
sg_mark = 64 ∷ 115 ∷ 103 ∷ 64 ∷ []

abbrev pub se_mark : Bytes
se_mark = 64 ∷ 115 ∷ 101 ∷ 64 ∷ []

abbrev pub sg_group_key : ℕ → Bytes → Bytes
sg_group_key group canonical = sg_mark ++ (decimal group ++ 64 ∷ canonical)

abbrev pub sg_edit_key : Bytes → Bytes
sg_edit_key canonical = se_mark ++ canonical

pub data SgWrite : Type 0 where
  select_active select_edit confirm_edit active_value : SgWrite
  edit_value : SettingRef → SgWrite

abbrev pub mms_u32 : MmsData → Option ℕ
mms_u32 (uint u) = some (u % 2 ^ 32)
mms_u32 _ = none

abbrev pub u32_or_zero : Option MmsData → ℕ
u32_or_zero (some (uint u)) = u % 2 ^ 32
u32_or_zero _ = 0

-- "ActSG", "EditSG" and "CnfEdit", each behind a `$`
abbrev pub act_sg : Bytes
act_sg = 36 ∷ 65 ∷ 99 ∷ 116 ∷ 83 ∷ 71 ∷ []

abbrev pub edit_sg : Bytes
edit_sg = 36 ∷ 69 ∷ 100 ∷ 105 ∷ 116 ∷ 83 ∷ 71 ∷ []

abbrev pub cnf_edit : Bytes
cnf_edit = 36 ∷ 67 ∷ 110 ∷ 102 ∷ 69 ∷ 100 ∷ 105 ∷ 116 ∷ []

abbrev pub sgcb_u32 : Store → Bytes → Option Bytes → Bytes → ℕ
sgcb_u32 map domain none attr = 0
sgcb_u32 map domain (some base) attr = u32_or_zero (find map (domain, base ++ attr))

abbrev pub sgcb_base : SettingModel → Bytes → Option Bytes
sgcb_base model domain = get model.sgcbs domain

abbrev pub num_setting_groups : SettingModel → Bytes → Option ℕ
num_setting_groups model domain = get model.sg_domains domain

abbrev pub or_zero : Option ℕ → ℕ
or_zero none = 0
or_zero (some n) = n

-- `(1..=n).contains(&g)`
abbrev pub in_groups : ℕ → ℕ → Bool
in_groups n g = leb 1 g && leb g n

-- `clamp`
abbrev pub clamp : ℕ → ℕ → ℕ
clamp n g = if in_groups n g then g else 1

abbrev pub or_else : Option MmsData → Option MmsData → Option MmsData
or_else (some v) other = some v
or_else none other = other

-- The value of a setting in the group that an attribute of the SGCB names.
unfoldable pub group_value : SettingModel → Store → Bytes → SettingRef → Bytes → Option MmsData
group_value model map domain sr attr = find map (
  domain,
  sg_group_key (clamp sr.num_of_sgs (sgcb_u32 map domain (sgcb_base model domain) attr))
      sr.canonical,
)

unfoldable pub resolve_setting : SettingModel → Store → Bytes → SettingRef → Option MmsData
resolve_setting model map domain sr =
    if sr.editable
    then or_else (find map (domain, sg_edit_key sr.canonical))
        (group_value model map domain sr edit_sg)
    else group_value model map domain sr act_sg

-- `item.splitn(3, '$')`: the node, the functional constraint and the rest.
abbrev pub ref_of_parts : ℕ → Bytes → Option (Bytes × Bytes) → Option SettingRef
ref_of_parts n ln none = none
ref_of_parts n ln (some (fc, tail)) =
    if bytes_eq fc (83 ∷ 71 ∷ [])
    then some (record { editable = false; canonical = ln ++ 36 ∷ tail; num_of_sgs = n })
    else if bytes_eq fc (83 ∷ 69 ∷ [])
    then some (record { editable = true; canonical = ln ++ 36 ∷ tail; num_of_sgs = n })
    else none

abbrev pub ref_of_item : ℕ → Option (Bytes × Bytes) → Option SettingRef
ref_of_item n none = none
ref_of_item n (some (ln, rest)) = ref_of_parts n ln (split_once 36 rest)

abbrev pub ref_in : Option ℕ → Bytes → Option SettingRef
ref_in none item = none
ref_in (some n) item = ref_of_item n (split_once 36 item)

unfoldable pub setting_ref : SettingModel → Bytes → Bytes → Option SettingRef
setting_ref model domain item = ref_in (num_setting_groups model domain) item

abbrev pub value_write : Option SettingRef → Option SgWrite
value_write none = none
value_write (some sr) = some (if sr.editable then edit_value sr else active_value)

abbrev pub sgcb_write : Option Bytes → Bytes → Option SgWrite → Option SgWrite
sgcb_write none item other = other
sgcb_write (some base) item other =
    if bytes_eq item (base ++ act_sg)
    then some select_active
    else if bytes_eq item (base ++ edit_sg)
    then some select_edit
    else if bytes_eq item (base ++ cnf_edit)
    then some confirm_edit
    else other

unfoldable pub classify_sg_write : SettingModel → Bytes → Bytes → Option SgWrite
classify_sg_write model domain item =
    sgcb_write (sgcb_base model domain) item (value_write (setting_ref model domain item))

-- The edited values of a domain.
unfoldable pub staged : Bytes → Store → List (Bytes × MmsData)
staged domain [] = []
staged domain (((d, item), v) ∷ map) =
    let rest = staged domain map in
    if bytes_eq d domain && starts_with se_mark item then (item, v) ∷ rest else rest

-- The insertion under `if let Some(canonical)`.
abbrev pub confirmed : Bytes → ℕ → MmsData → Option Bytes → Store → Store
confirmed domain edit v none map = map
confirmed domain edit v (some canonical) map = put map (domain, sg_group_key edit canonical) v

-- The loop over the edited values.
unfoldable pub confirm_all : Bytes → ℕ → List (Bytes × MmsData) → Store → Store
confirm_all domain edit [] map = map
confirm_all domain edit ((edit_key, v) ∷ edits) map =
    confirm_all domain edit edits
      (remove (confirmed domain edit v (strip_prefix se_mark edit_key) map) (domain, edit_key))

unfoldable pub confirm_edit_sg : SettingModel → Bytes → Store → Store
confirm_edit_sg model domain map =
    let edit = sgcb_u32 map domain (sgcb_base model domain) edit_sg in
    if in_groups (or_zero (num_setting_groups model domain)) edit
    then confirm_all domain edit (staged domain map) map
    else map

-- The store, the published changes and the result of a write.
abbrev pub Written : Type 0
Written = (Store × List ValueChange) × WriteResult

abbrev pub stored : Store → Key → MmsData → Written
stored map item value = (apply_value map item value, success)

-- A group that is selected must be there.
abbrev pub select_group : ℕ → Store → Key → MmsData → Written
select_group n map item (uint g) =
    if in_groups n g then stored map item (uint g) else ((map, []), failure object_value_invalid)
select_group n map item value = ((map, []), failure object_value_invalid)

abbrev pub is_confirmation : MmsData → Bool
is_confirmation (bool b) = b
is_confirmation _ = false

-- `CnfEdit` falls back to false.
abbrev pub clear_confirmation : Bytes → Option Bytes → Store → Written
clear_confirmation domain none map = ((map, []), success)
clear_confirmation domain (some base) map = stored map (domain, base ++ cnf_edit) (bool false)

unfoldable pub handle_sg_write : SettingModel → Bytes → Bytes → MmsData → SgWrite → Store → Written
handle_sg_write model domain item value select_active map =
    select_group (or_zero (num_setting_groups model domain)) map (domain, item) value
handle_sg_write model domain item value select_edit map =
    select_group (or_zero (num_setting_groups model domain)) map (domain, item) value
handle_sg_write model domain item value confirm_edit map =
    clear_confirmation domain (sgcb_base model domain)
      (if is_confirmation value then confirm_edit_sg model domain map else map)
handle_sg_write model domain item value (edit_value sr) map =
    stored map (domain, sg_edit_key sr.canonical) value
handle_sg_write model domain item value active_value map = ((map, []), failure object_access_denied)
