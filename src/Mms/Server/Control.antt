-- ===== src/Mms/Server/Control.antt =====
-- crates/iec61850-mms/src/server.rs: the control model, `operate` and the selections in front of it. Instants are in
-- nanoseconds. An unsolicited message is named, not encoded; `contains` is `ServerModel::contains`.
pub mod Selecting
use iec_61850_studio.Base.{
  ℕ, zero, suc, ◌+◌, ◌*◌, ◌≤◌, ◌<◌, ◌^◌, bit_and, List, [], ◌∷◌, ◌++◌, Option, none, some, Bool,
  true, false, ltb, leb, ◌==◌, not, ◌&&◌, ◌||◌, if◌then◌else◌, bytes_eq, get_elem?,
}
use iec_61850_studio.Base.Words.{Bytes}
use iec_61850_studio.Base.Strings.{replace, replace_first, trim_end_matches, split}
use iec_61850_studio.Base.PairMaps.{Key, find, put, remove}
use iec_61850_studio.Ber.Primitives.{BitString}
use iec_61850_studio.Ber.Data.{MmsData, Items, nil, cons, bool, int, uint, bit_string, structure}
use iec_61850_studio.Transport.Error.{object_access_denied, object_non_existent}
use iec_61850_studio.Mms.Server.Access.{co_part}
use iec_61850_studio.Mms.Server.Store.{
  Store, ValueChange, WriteResult, success, failure, apply_value,
}

-- `Selection { expires }`
abbrev pub Selections : Type 0
Selections = List (Key × ℕ)

-- `add_cause`, as far as the server gives one
pub data AddCause : Type 0 where
  not_supported blocked_by_interlocking object_not_selected time_limit_over : AddCause

-- `LastApplError` with its cause, and `CommandTermination`, positive or negative
pub data Unsolicited : Type 0 where
  last_appl_error : AddCause → Unsolicited
  command_termination : Bool → Unsolicited

abbrev pub default_sbo_timeout_ms : ℕ
default_sbo_timeout_ms = 30000

-- "LN$CO$<do>" and an attribute, as "LN$CF$<do>$<attr>"
abbrev pub cf_of_parts : List Bytes → Bytes → Option Bytes
cf_of_parts (ln ∷ fc ∷ doi ∷ _) attr =
    if bytes_eq fc (67 ∷ 79 ∷ [])
    then some (ln ++ (36 ∷ 67 ∷ 70 ∷ 36 ∷ []) ++ doi ++ (36 ∷ []) ++ attr)
    else none
cf_of_parts _ attr = none

unfoldable pub cf_of_co : Bytes → Bytes → Option Bytes
cf_of_co co_base attr = cf_of_parts (split 36 co_base) attr

-- "ctlModel", "sboTimeout" and "intlckBlk"
abbrev pub ctl_model_attr : Bytes
ctl_model_attr = 99 ∷ 116 ∷ 108 ∷ 77 ∷ 111 ∷ 100 ∷ 101 ∷ 108 ∷ []

abbrev pub sbo_timeout_attr : Bytes
sbo_timeout_attr = 115 ∷ 98 ∷ 111 ∷ 84 ∷ 105 ∷ 109 ∷ 101 ∷ 111 ∷ 117 ∷ 116 ∷ []

abbrev pub intlck_blk_attr : Bytes
intlck_blk_attr = 105 ∷ 110 ∷ 116 ∷ 108 ∷ 99 ∷ 107 ∷ 66 ∷ 108 ∷ 107 ∷ []

abbrev pub value_at : Store → Bytes → Option Bytes → Option MmsData
value_at store domain none = none
value_at store domain (some item) = find store (domain, item)

abbrev pub kind_of : Option MmsData → ℕ
kind_of (some (int n)) = n
kind_of (some (uint n)) = n
kind_of _ = 0

-- `ctl_model_of`, the pattern of an `i64`
unfoldable pub ctl_model_of : Store → Bytes → Bytes → ℕ
ctl_model_of store domain co_base =
    kind_of (value_at store domain (cf_of_co co_base ctl_model_attr))

abbrev pub millis_of : Option MmsData → ℕ
millis_of (some (int n)) = if ltb n (2 ^ 63) then n else 0
millis_of (some (uint n)) = n
millis_of _ = 0

unfoldable pub sbo_timeout_of : Store → Bytes → Bytes → ℕ
sbo_timeout_of store domain co_base =
    let ms = millis_of (value_at store domain (cf_of_co co_base sbo_timeout_attr)) in
    (if ms == 0 then default_sbo_timeout_ms else ms) * 1000000

abbrev pub is_sbo : ℕ → Bool
is_sbo kind = kind == 2 || kind == 4

-- The selection that reading `$SBO` and writing `$SBOw` make: whether it was granted, and the selections.
unfoldable pub select : Store → ℕ → Bytes → Bytes → Selections → Bool × Selections
select store now domain base selections =
    if is_sbo (ctl_model_of store domain base)
    then (true, put selections (domain, base) (now + sbo_timeout_of store domain base))
    else (false, selections)

-- Writing `$Cancel`.
unfoldable pub cancel : Bytes → Bytes → Selections → Selections
cancel domain base selections = remove selections (domain, base)

-- `fields.get(n)`
abbrev pub nth_item : Items → ℕ → Option MmsData
nth_item nil n = none
nth_item (cons d items) zero = some d
nth_item (cons d items) (suc n) = nth_item items n

-- `b.bit(0)`
abbrev pub first_bit : Bytes → Bool
first_bit [] = false
first_bit (b ∷ _) = not (bit_and b 0x80 == 0)

abbrev pub check_bit : Option MmsData → Bool
check_bit (some (bit_string bs)) = first_bit bs.bytes
check_bit _ = false

-- The value of an `Oper` and its interlock check.
unfoldable pub oper_parts : MmsData → MmsData × Bool
oper_parts (structure (cons ctl_val fields)) =
    (ctl_val, check_bit (nth_item (cons ctl_val fields) 5))
oper_parts other = (other, false)

abbrev pub oper_suffix : Bytes
oper_suffix = 36 ∷ 79 ∷ 112 ∷ 101 ∷ 114 ∷ []

-- "LN$CO$<do>$Oper" as "LN$ST$<do>$stVal"
unfoldable pub status_item : Bytes → Bytes
status_item oper_item =
    replace oper_suffix (36 ∷ 115 ∷ 116 ∷ 86 ∷ 97 ∷ 108 ∷ [])
      (replace_first co_part (36 ∷ 83 ∷ 84 ∷ 36 ∷ []) oper_item)

unfoldable pub co_base_of : Bytes → Bytes
co_base_of oper_item = trim_end_matches oper_suffix oper_item

abbrev pub is_true_at : Option MmsData → Bool
is_true_at (some (bool b)) = b
is_true_at _ = false

unfoldable pub is_blocked : Store → Bytes → Bytes → Bool → Bool
is_blocked store domain co_base interlock_check =
    interlock_check && is_true_at (value_at store domain (cf_of_co co_base intlck_blk_attr))

-- What `operate` leaves and gives.
pub record Operated : Type 0 where
  pub selections : Selections
  pub store : Store
  pub changes : List ValueChange
  pub result : WriteResult
  pub unsolicited : List Unsolicited

abbrev pub refuse : Selections → Store → AddCause → Operated
refuse selections store cause = record {
  selections = selections;
  store = store;
  changes = [];
  result = failure object_access_denied;
  unsolicited = last_appl_error cause ∷ [];
}

abbrev pub applied : Selections → Store → Key → MmsData → List Unsolicited → Operated
applied selections store item ctl_val unsolicited =
    let (store', changes) = apply_value store item ctl_val in
    record {
      selections = selections;
      store = store';
      changes = changes;
      result = success;
      unsolicited = unsolicited;
    }

-- The part of `operate` behind the selection.
unfoldable pub execute : Selections → Store → ℕ → Bool → Key → MmsData → Operated
execute selections store kind blocked item ctl_val =
    if not (kind == 3 || kind == 4)
    then (if blocked
        then refuse selections store blocked_by_interlocking
        else applied selections store item ctl_val [])
    else if blocked
    then record {
      selections = selections;
      store = store;
      changes = [];
      result = success;
      unsolicited = last_appl_error blocked_by_interlocking ∷ command_termination false ∷ [];
    }
    else applied selections store item ctl_val (command_termination true ∷ [])

-- The match on the selection of an object that wants one.
abbrev pub on_selection : ℕ → Selections → Store → Option ℕ → (Selections → Operated) → Operated
on_selection now removed store none go = refuse removed store object_not_selected
on_selection now removed store (some expires) go =
    if leb expires now then refuse removed store time_limit_over else go removed

unfoldable pub operate : (Key → Bool) → ℕ → Bytes → Bytes → MmsData → Selections → Store → Operated
operate contains now domain oper_item value selections store =
    let (ctl_val, interlock_check) = oper_parts value in
    let status : Key = (domain, status_item oper_item) in
    let co_base = co_base_of oper_item in
    let kind = ctl_model_of store domain co_base in
    let blocked = is_blocked store domain co_base interlock_check in
    let go : Selections → Operated = λ sel. execute sel store kind blocked status ctl_val in
    if not (contains status)
    then record {
      selections = selections;
      store = store;
      changes = [];
      result = failure object_non_existent;
      unsolicited = [];
    }
    else if not (leb 1 kind && leb kind 4)
    then refuse selections store not_supported
    else if is_sbo kind
    then on_selection now (remove selections (domain, co_base)) store
        (find selections (domain, co_base)) go
    else go selections
