-- ===== src/Mms/Server/Access.antt =====
-- crates/iec61850-mms/src/server.rs: roles, and the policy that gives a role to an association. Texts are octets; the
-- verifier of access tokens, with the clock that it reads, is a parameter.
use iec_61850_studio.Base.{
  List, [], ◌∷◌, Option, none, some, Bool, true, false, ◌==◌, ◌||◌, get_elem?, if◌then◌else◌,
  bytes_eq, bytes_eq_iff, ◌≡◌, ◌≢◌, ◌⊎◌, ◌↔◌, inl, inr, refl, ap, ◌∙◌, arith, Bool-cases,
}
use iec_61850_studio.Base.Words.{Bytes}
use iec_61850_studio.Base.Strings.{contains_text, split}
use iec_61850_studio.Mms.Server.Permissions
use iec_61850_studio.Mms.Server.Permissions.{◌∪◌, contains}

pub data Role : Type 0 where
  viewer operator engineer : Role
  custom : Permissions.Permissions → Role

unfoldable pub permissions : Role → Permissions.Permissions
permissions viewer = Permissions.data_read ∪ Permissions.file_read
permissions operator =
    Permissions.data_read ∪ Permissions.control ∪ Permissions.reporting ∪ Permissions.dataset_define
    ∪ Permissions.file_read
permissions engineer =
    Permissions.data_read ∪ Permissions.data_write ∪ Permissions.control ∪ Permissions.reporting
    ∪ Permissions.dataset_define ∪ Permissions.config ∪ Permissions.setting ∪ Permissions.file_read
    ∪ Permissions.file_write
permissions (custom p) = p

unfoldable pub from_permissions : Permissions.Permissions → Role
from_permissions perms =
    if perms == permissions viewer
    then viewer
    else if perms == permissions operator
    then operator
    else if perms == permissions engineer
    then engineer
    else custom perms

-- "$CO$", "$RP$", "$BR$", "$CF$" and "$SP$SGCB"
abbrev pub co_part : Bytes
co_part = 36 ∷ 67 ∷ 79 ∷ 36 ∷ []

abbrev pub rp_part : Bytes
rp_part = 36 ∷ 82 ∷ 80 ∷ 36 ∷ []

abbrev pub br_part : Bytes
br_part = 36 ∷ 66 ∷ 82 ∷ 36 ∷ []

abbrev pub cf_part : Bytes
cf_part = 36 ∷ 67 ∷ 70 ∷ 36 ∷ []

abbrev pub sgcb_part : Bytes
sgcb_part = 36 ∷ 83 ∷ 80 ∷ 36 ∷ 83 ∷ 71 ∷ 67 ∷ 66 ∷ []

-- `item.split('$').nth(1) == Some(fc)`
abbrev pub is_piece : Option Bytes → Bytes → Bool
is_piece none fc = false
is_piece (some piece) fc = bytes_eq piece fc

abbrev pub fc_is : Bytes → Bytes → Bool
fc_is item fc = is_piece (get_elem? (split 36 item) 1) fc

unfoldable pub is_setting_item : Bytes → Bool
is_setting_item item =
    fc_is item (83 ∷ 71 ∷ []) || fc_is item (83 ∷ 69 ∷ []) || contains_text sgcb_part item

unfoldable pub write_permission : Bytes → Permissions.Permissions
write_permission item =
    if contains_text co_part item
    then Permissions.control
    else if contains_text rp_part item || contains_text br_part item
    then Permissions.reporting
    else if is_setting_item item
    then Permissions.setting
    else if contains_text cf_part item
    then Permissions.config
    else Permissions.data_write

unfoldable pub may_write : Role → Bytes → Bool
may_write role item = contains (permissions role) (write_permission item)

unfoldable pub may_read : Role → Bytes → Bool
may_read role item =
    if fc_is item (83 ∷ 69 ∷ [])
    then contains (permissions role) Permissions.setting
    else contains (permissions role) Permissions.data_read

unfoldable pub may_define_dataset : Role → Bool
may_define_dataset role = contains (permissions role) Permissions.dataset_define

unfoldable pub may_read_files : Role → Bool
may_read_files role = contains (permissions role) Permissions.file_read

unfoldable pub may_write_files : Role → Bool
may_write_files role = contains (permissions role) Permissions.file_write

pub data AuthPolicy : Type 0 where
  open_to_all : AuthPolicy
  passwords : List (Bytes × Role) → AuthPolicy
  certificates : List (Bytes × Role) → AuthPolicy
  token : AuthPolicy

-- `list.iter().find(|(k, _)| k == key).map(|(_, role)| *role)`
unfoldable pub find_role : List (Bytes × Role) → Bytes → Option Role
find_role [] key = none
find_role ((k, role) ∷ rest) key = if bytes_eq k key then some role else find_role rest key

-- `let key = key?;` in front of a search
abbrev pub with_key : Option Bytes → (Bytes → Option Role) → Option Role
with_key none search = none
with_key (some key) search = search key

-- `verify` is `token::verify` with the authority of the policy, at the time of the clock.
unfoldable pub authorize :
    (Bytes → Option Role) → AuthPolicy → Option Bytes → Option Bytes → Option Role
authorize verify open_to_all password cert_cn = some engineer
authorize verify (passwords list) password cert_cn = with_key password (find_role list)
authorize verify (certificates list) password cert_cn = with_key cert_cn (find_role list)
authorize verify token password cert_cn = with_key password verify

-- Whether an item concerns control or reporting.
abbrev pub is_operation : Bytes → Bool
is_operation item =
    contains_text co_part item || (contains_text rp_part item || contains_text br_part item)

-- The permission for an item that concerns neither.
abbrev needed : Bool → Bool → Permissions.Permissions
needed b c =
    if b then Permissions.setting else if c then Permissions.config else Permissions.data_write

needed_lem :
    (b c : Bool)
    → (contains (permissions viewer) (needed b c) ≡ false)
      × (contains (permissions operator) (needed b c) ≡ false)
      × (contains (permissions engineer) (needed b c) ≡ true)
unfolding permissions
needed_lem true c = (refl, refl, refl)
needed_lem false true = (refl, refl, refl)
needed_lem false false = (refl, refl, refl)

-- What the standard roles may write: a viewer nothing, an engineer everything, and an operator exactly the items
-- whose name has a `$CO$`, `$RP$` or `$BR$`, wherever it
-- stands in the name.
pub may_write_lem :
    (item : Bytes)
    → (may_write viewer item ≡ false)
      × (may_write operator item ≡ is_operation item)
      × (may_write engineer item ≡ true)
unfolding may_write write_permission permissions
may_write_lem item = elim (Bool-cases (contains_text co_part item)) [
  | inl co ↦ rw co (refl, refl, refl)
  | inr not_co ↦
      rw not_co (elim (Bool-cases (contains_text rp_part item || contains_text br_part item)) [
        | inl report ↦ rw report (refl, refl, refl)
        | inr other ↦ rw other (needed_lem (is_setting_item item) (contains_text cf_part item))
      ])
]

-- A set of permissions that a token carries is the one of the role that is made of it, and a standard role is
-- made again of its own permissions.
permissions-from_permissions :
    (perms : Permissions.Permissions)
    → (permissions (from_permissions perms) ≡ perms)
      × (from_permissions (permissions viewer) ≡ viewer)
      × (from_permissions (permissions operator) ≡ operator)
      × (from_permissions (permissions engineer) ≡ engineer)
unfolding permissions from_permissions
permissions-from_permissions perms = (ground arith, refl, refl, refl)

-- The first entry of a list with a key.
abbrev pub IsFirst : List (Bytes × Role) → Bytes → Role → Type 0
IsFirst [] key role = ⊥
IsFirst ((k, r) ∷ rest) key role = (k ≡ key) × (r ≡ role) ⊎ (k ≢ key) × IsFirst rest key role

-- The credentials that a policy asks for, with the role that it gives for them.
abbrev pub IsEntitled :
    (Bytes → Option Role) → AuthPolicy → Option Bytes → Option Bytes → Role → Type 0
IsEntitled verify open_to_all password cert_cn role = engineer ≡ role
IsEntitled verify (passwords list) password cert_cn role =
    (key : Bytes) × (password ≡ some key) × IsFirst list key role
IsEntitled verify (certificates list) password cert_cn role =
    (key : Bytes) × (cert_cn ≡ some key) × IsFirst list key role
IsEntitled verify token password cert_cn role =
    (key : Bytes) × (password ≡ some key) × (verify key ≡ some role)

find_role_iff :
    (list : List (Bytes × Role)) (key : Bytes) (role : Role)
    → (find_role list key ≡ some role) ↔ IsFirst list key role
unfolding find_role
find_role_iff [] key role = (λ e. cc, λ h. absurd h)
find_role_iff ((k, r) ∷ rest) key role = elim (Bool-cases (bytes_eq k key)) [
  | inl same ↦
      let e : k ≡ key = (bytes_eq_iff k key).0 same in
      rw same (
        λ found. inl (e, cc),
        λ h. elim h [ inl (_, er) ↦ ap some er | inr (ne, _) ↦ absurd (ne e) ],
      )
  | inr other ↦
      let ne : k ≢ key = λ e. cc ((bytes_eq_iff k key).1 e, other) in
      rw other (
        λ found. inr (ne, (find_role_iff rest key role).0 found),
        λ h. elim h [
          | inl (e, _) ↦ absurd (ne e)
          | inr (_, first) ↦ (find_role_iff rest key role).1 first
        ],
      )
]

with_key_iff :
    (o : Option Bytes) (search : Bytes → Option Role) (role : Role)
    → (with_key o search ≡ some role) ↔ ((key : Bytes) × (o ≡ some key) × (search key ≡ some role))
with_key_iff none search role = (λ e. cc, λ (key, e, _). cc)
with_key_iff (some k) search role =
    (λ e. (k, refl, e), λ (key, e, h). ap search (some_injective e) ∙ h)
  where
    some_injective : {a b : Bytes} → some a ≡ some b → a ≡ b
    some_injective e = cc

searched :
    (o : Option Bytes) (search : Bytes → Option Role) (P : Bytes → Role → Type 0)
    → ((key : Bytes) (role : Role) → (search key ≡ some role) ↔ P key role)
    → (role : Role)
    → (with_key o search ≡ some role) ↔ ((key : Bytes) × (o ≡ some key) × P key role)
searched o search P iff role = (
  λ e. let (key, ek, h) = (with_key_iff o search role).0 e in (key, ek, (iff key role).0 h),
  λ (key, ek, h). (with_key_iff o search role).1 (key, ek, (iff key role).1 h),
)

-- An association gets a role exactly where its credentials entitle it to that role: without a policy that of an
-- engineer; else that of the first entry with the password, or with the name of the certificate, or the
-- role that the verifier reads out of a token. Without such credentials it is refused.
pub authorize_iff :
    (verify : Bytes → Option Role) (policy : AuthPolicy) (password cert_cn : Option Bytes)
    (role : Role)
    → (authorize verify policy password cert_cn ≡ some role)
      ↔ IsEntitled verify policy password cert_cn role
unfolding authorize
authorize_iff verify open_to_all password cert_cn role = (λ e. cc, λ e. ap some e)
authorize_iff verify (passwords list) password cert_cn role =
    searched password (find_role list) (IsFirst list) (find_role_iff list) role
authorize_iff verify (certificates list) password cert_cn role =
    searched cert_cn (find_role list) (IsFirst list) (find_role_iff list) role
authorize_iff verify token password cert_cn role = with_key_iff password verify role
