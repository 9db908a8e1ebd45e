-- ===== src/Mms/Server/Settings/Confirming.antt =====
-- crates/iec61850-mms/src/server.rs: `confirm_edit_sg` moves what is being edited into the group that is edited.
use iec_61850_studio.Base.{
  ℕ, List, [], ◌∷◌, ◌++◌, Option, none, some, Bool, true, false, ◌&&◌, if◌then◌else◌, bytes_eq,
  bytes_eq_refl, bytes_eq_iff, Bool-cases, ◌≡◌, refl, sym, ap, ◌∙◌, arith, inl, inr,
}
use iec_61850_studio.Base.Words.{Bytes}
use iec_61850_studio.Base.Strings.{strip_prefix, starts_with, is_some, strip_prefix-append}
use iec_61850_studio.Base.PairMaps.{
  Key, key_eq, key_eq-same, find, put, remove, find-put, find-put_other, find-remove,
  find-remove_other,
}
use iec_61850_studio.Ber.Data.{MmsData}
use iec_61850_studio.Mms.Server.Store.{Store}
use iec_61850_studio.Mms.Server.Settings.{
  SettingModel, se_mark, sg_group_key, sg_edit_key, sgcb_u32, sgcb_base, num_setting_groups,
  or_zero, in_groups, decimal, edit_sg, staged, confirmed, confirm_all, confirm_edit_sg, or_else,
}

-- Every key has one entry.
unfoldable pub IsMap : Store → Type 0
IsMap [] = Unit
IsMap ((k, v) ∷ map) = (find map k ≡ none) × IsMap map

-- What a list of edits has for a setting, the later edit first.
unfoldable last_edit : List (Bytes × MmsData) → Bytes → Option MmsData
last_edit [] canonical = none
last_edit ((key, v) ∷ edits) canonical =
    or_else (last_edit edits canonical)
      (if bytes_eq key (sg_edit_key canonical) then some v else none)

unfoldable AreEdits : List (Bytes × MmsData) → Type 0
AreEdits [] = Unit
AreEdits ((key, v) ∷ edits) = ((canonical : Bytes) × (key ≡ sg_edit_key canonical)) × AreEdits edits

bytes_eq-append : (xs a b : Bytes) → bytes_eq (xs ++ a) (xs ++ b) ≡ bytes_eq a b
unfolding bytes_eq
bytes_eq-append [] a b = refl
bytes_eq-append (x ∷ xs) a b = ground (arith, bytes_eq-append xs a b)

group-group : (g : ℕ) (a b : Bytes) → bytes_eq (sg_group_key g a) (sg_group_key g b) ≡ bytes_eq a b
unfolding bytes_eq
group-group g a b = bytes_eq-append (decimal g) (64 ∷ a) (64 ∷ b)

strip_prefix-cut :
    (pattern text rest : Bytes) → strip_prefix pattern text ≡ some rest → text ≡ pattern ++ rest
unfolding strip_prefix
strip_prefix-cut [] text rest e = ground (arith, e)
strip_prefix-cut (p ∷ ps) [] rest e = ground (arith, e)
strip_prefix-cut (p ∷ ps) (c ∷ cs) rest e = ground (arith, e, strip_prefix-cut ps cs rest)

some-cases : {A : Type 0} (o : Option A) → is_some o ≡ true → (a : A) × (o ≡ some a)
some-cases none h = ground (arith, h)
some-cases (some a) h = (a, refl)

find-confirmed :
    (domain : Bytes) (g : ℕ) (v : MmsData) (a b : Bytes) (map : Store)
    → find (put map (domain, sg_group_key g a) v) (domain, sg_group_key g b)
      ≡ (if bytes_eq a b then some v else find map (domain, sg_group_key g b))
find-confirmed domain g v a b map = elim (Bool-cases (bytes_eq a b)) [
  | inl e ↦
      let same : a ≡ b = (bytes_eq_iff a b).0 e in
      rw (e, same) (find-put map (domain, sg_group_key g b) v)
  | inr e ↦
      let differs : key_eq (domain, sg_group_key g a) (domain, sg_group_key g b) ≡ false =
        rw (bytes_eq_refl domain, group-group g a b) e in
      rw e (find-put_other map (domain, sg_group_key g a) (domain, sg_group_key g b) v differs)
]

if-or_else :
    (t : Bool) (v : MmsData) (other : Option MmsData)
    → (if t then some v else other) ≡ or_else (if t then some v else none) other
if-or_else true v other = refl
if-or_else false v other = refl

or_else-none : (a : Option MmsData) → or_else a none ≡ a
or_else-none (some _) = refl
or_else-none none = refl

or_else_assoc : (a b c : Option MmsData) → or_else (or_else a b) c ≡ or_else a (or_else b c)
or_else_assoc (some _) b c = refl
or_else_assoc none b c = refl

-- One edit: the group gets the value of its setting, and every other setting of the group keeps its own.
find-step :
    (domain : Bytes) (g : ℕ) (v : MmsData) (a b : Bytes) (map : Store)
    → find
        (remove (put map (domain, sg_group_key g a) v) (domain, sg_edit_key a))
        (domain, sg_group_key g b)
      ≡ or_else
          (if bytes_eq (sg_edit_key a) (sg_edit_key b) then some v else none)
          (find map (domain, sg_group_key g b))
unfolding bytes_eq
find-step domain g v a b map =
    find-remove_other (put map (domain, sg_group_key g a) v) (domain, sg_edit_key a)
      (domain, sg_group_key g b) (rw (bytes_eq_refl domain) refl)
    ∙ find-confirmed domain g v a b map
    ∙ if-or_else (bytes_eq a b) v (find map (domain, sg_group_key g b))

find-edit :
    (domain : Bytes) (g : ℕ) (key : Bytes) (v : MmsData) (a b : Bytes) (map : Store)
    → key ≡ sg_edit_key a
    → find
        (remove (confirmed domain g v (strip_prefix se_mark key) map) (domain, key))
        (domain, sg_group_key g b)
      ≡ or_else
          (if bytes_eq key (sg_edit_key b) then some v else none)
          (find map (domain, sg_group_key g b))
find-edit domain g key v a b map same =
    rw (same, strip_prefix-append se_mark a) (find-step domain g v a b map)

find-confirm_all :
    (domain : Bytes) (g : ℕ) (edits : List (Bytes × MmsData)) (map : Store) (b : Bytes)
    → AreEdits edits
    → find (confirm_all domain g edits map) (domain, sg_group_key g b)
      ≡ or_else (last_edit edits b) (find map (domain, sg_group_key g b))
unfolding confirm_all last_edit AreEdits
find-confirm_all domain g [] map b h = refl
find-confirm_all domain g ((key, v) ∷ edits) map b ((a, same), h) =
    find-confirm_all domain g edits
      (remove (confirmed domain g v (strip_prefix se_mark key) map) (domain, key)) b h
    ∙ ap (or_else (last_edit edits b)) (find-edit domain g key v a b map same)
    ∙ sym (
        or_else_assoc (last_edit edits b) (if bytes_eq key (sg_edit_key b) then some v else none)
          (find map (domain, sg_group_key g b)))

-- A group is another place than the edit buffer: its key begins with another mark.
find-edit_other :
    (domain : Bytes) (g : ℕ) (key : Bytes) (v : MmsData) (a b : Bytes) (map : Store)
    → key ≡ sg_edit_key a
    → find (confirmed domain g v (strip_prefix se_mark key) map) (domain, sg_edit_key b)
      ≡ find map (domain, sg_edit_key b)
unfolding bytes_eq
find-edit_other domain g key v a b map same =
    let differs : key_eq (domain, sg_group_key g a) (domain, sg_edit_key b) ≡ false =
      rw (bytes_eq_refl domain) refl in
    rw (same, strip_prefix-append se_mark a)
      (find-put_other map (domain, sg_group_key g a) (domain, sg_edit_key b) v differs)

-- One edit leaves no entry for its own setting in the edit buffer, and the entries of others.
find-cleared :
    (domain : Bytes) (g : ℕ) (key : Bytes) (v : MmsData) (a b : Bytes) (map : Store)
    → key ≡ sg_edit_key a
    → find
        (remove (confirmed domain g v (strip_prefix se_mark key) map) (domain, key))
        (domain, sg_edit_key b)
      ≡ (if bytes_eq key (sg_edit_key b) then none else find map (domain, sg_edit_key b))
find-cleared domain g key v a b map same = elim (Bool-cases (bytes_eq key (sg_edit_key b))) [
  | inl e ↦
      let named : key ≡ sg_edit_key b = (bytes_eq_iff key (sg_edit_key b)).0 e in
      rw e (
        ap
          (λ (k : Bytes).
            find (remove (confirmed domain g v (strip_prefix se_mark key) map) (domain, key))
              (domain, k))
          (sym named)
        ∙ find-remove (confirmed domain g v (strip_prefix se_mark key) map) (domain, key))
  | inr e ↦
      let differs : key_eq (domain, key) (domain, sg_edit_key b) ≡ false =
        rw (bytes_eq_refl domain) e in
      rw e (
        find-remove_other (confirmed domain g v (strip_prefix se_mark key) map) (domain, key)
          (domain, sg_edit_key b) differs
        ∙ find-edit_other domain g key v a b map same)
]

-- What is left in the edit buffer behind the loop: the entries that the edits do not name.
find-confirm_all_edit :
    (domain : Bytes) (g : ℕ) (edits : List (Bytes × MmsData)) (map : Store) (b : Bytes)
    → AreEdits edits
    → (last_edit edits b ≡ none → find map (domain, sg_edit_key b) ≡ none)
    → find (confirm_all domain g edits map) (domain, sg_edit_key b) ≡ none
unfolding confirm_all last_edit AreEdits
find-confirm_all_edit domain g [] map b h covered = covered refl
find-confirm_all_edit domain g ((key, v) ∷ edits) map b ((a, same), h) covered =
    find-confirm_all_edit domain g edits
      (remove (confirmed domain g v (strip_prefix se_mark key) map) (domain, key)) b h
      λ later.
        find-cleared domain g key v a b map same
        ∙ elim (Bool-cases (bytes_eq key (sg_edit_key b))) [
          | inl e ↦ rw e refl
          | inr e ↦ rw e (covered (rw (later, e) refl))
        ]

edit-of-mark :
    (key : Bytes)
    → starts_with se_mark key ≡ true
    → (canonical : Bytes) × (key ≡ sg_edit_key canonical)
edit-of-mark key h =
    let (a, e) = some-cases (strip_prefix se_mark key) h in (a, strip_prefix-cut se_mark key a e)

staged-AreEdits : (domain : Bytes) (map : Store) → AreEdits (staged domain map)
unfolding staged AreEdits
staged-AreEdits domain [] = tt
staged-AreEdits domain (((d, item), v) ∷ map) =
    elim (Bool-cases (bytes_eq d domain && starts_with se_mark item)) [
      | inl e ↦
          let marked : starts_with se_mark item ≡ true = ground (arith, e) in
          rw e (edit-of-mark item marked, staged-AreEdits domain map)
      | inr e ↦ rw e (staged-AreEdits domain map)
    ]

edit-is_staged :
    (domain d item c : Bytes)
    → key_eq (d, item) (domain, sg_edit_key c) ≡ true
    → bytes_eq d domain && starts_with se_mark item ≡ true
edit-is_staged domain d item c e =
    let same_domain : bytes_eq d domain ≡ true = ground (arith, e) in
    let same : bytes_eq item (sg_edit_key c) ≡ true = ground (arith, e) in
    let item_lem : item ≡ sg_edit_key c = (bytes_eq_iff item (sg_edit_key c)).0 same in
    rw (same_domain, item_lem, strip_prefix-append se_mark c) refl

staged-last :
    (domain : Bytes) (map : Store) (c : Bytes)
    → IsMap map
    → last_edit (staged domain map) c ≡ find map (domain, sg_edit_key c)
unfolding staged IsMap find last_edit
staged-last domain [] c h = refl
staged-last domain (((d, item), v) ∷ map) c (fresh, h) =
    elim (Bool-cases (key_eq (d, item) (domain, sg_edit_key c))) [
      | inl e ↦
          let same : bytes_eq item (sg_edit_key c) ≡ true = ground (arith, e) in
          let nothing : find map (domain, sg_edit_key c) ≡ none =
            ap (λ (k : Key). find map k) (sym (key_eq-same (d, item) (domain, sg_edit_key c) e))
            ∙ fresh in
          rw (e, edit-is_staged domain d item c e, staged-last domain map c h, nothing, same) refl
      | inr e ↦ elim (Bool-cases (bytes_eq d domain && starts_with se_mark item)) [
        | inl f ↦
            let differs : bytes_eq item (sg_edit_key c) ≡ false = ground (arith, e, f) in
            rw (e, f, differs)
              (or_else-none (last_edit (staged domain map) c) ∙ staged-last domain map c h)
        | inr f ↦ rw (e, f) (staged-last domain map c h)
      ]
    ]

-- Where every key of the store has one entry and EditSG is the number of one of the groups, a confirmation leaves in the
-- edited group, for every setting, the value that was being edited, and where there was none the value of before;
-- and it leaves nothing of the setting in the edit buffer.
pub confirm_edit_sg-find :
    (model : SettingModel) (domain canonical : Bytes) (map : Store)
    → IsMap map
    → in_groups
        (or_zero (num_setting_groups model domain))
        (sgcb_u32 map domain (sgcb_base model domain) edit_sg)
      ≡ true
    → (find
          (confirm_edit_sg model domain map)
          (domain, sg_group_key (sgcb_u32 map domain (sgcb_base model domain) edit_sg) canonical)
        ≡ or_else (find map (domain, sg_edit_key canonical)) (
            find map (
              domain,
              sg_group_key (sgcb_u32 map domain (sgcb_base model domain) edit_sg) canonical,
            )))
      × (find (confirm_edit_sg model domain map) (domain, sg_edit_key canonical) ≡ none)
unfolding confirm_edit_sg
confirm_edit_sg-find model domain canonical map h in_range =
    let g : ℕ = sgcb_u32 map domain (sgcb_base model domain) edit_sg in
    let edits = staged-AreEdits domain map in
    let last = staged-last domain map canonical h in
    let edited = find-confirm_all domain g (staged domain map) map canonical edits in
    let emptied =
      find-confirm_all_edit domain g (staged domain map) map canonical edits
        (λ nothing. sym last ∙ nothing) in
    rw in_range (
      edited
          ∙ ap (λ (o : Option MmsData). or_else o (find map (domain, sg_group_key g canonical)))
              last,
      emptied,
    )
