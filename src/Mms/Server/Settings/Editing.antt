-- ===== src/Mms/Server/Settings/Editing.antt =====
-- crates/iec61850-mms/src/server.rs: a setting that is edited shows in the editable view at once, and in the active view
-- not before it is confirmed.
use iec_61850_studio.Base.{
  ℕ, [], ◌∷◌, ◌++◌, Option, none, some, Bool, true, false, ◌==◌, bytes_eq, bytes_eq_refl, ◌≡◌, refl,
  ap, ◌∙◌,
}
use iec_61850_studio.Base.Words.{Bytes}
use iec_61850_studio.Base.PairMaps.{key_eq, find, put, find-put, find-put_other}
use iec_61850_studio.Ber.Data.{MmsData}
use iec_61850_studio.Mms.Server.Store.{Store}
use iec_61850_studio.Mms.Server.Settings.{
  SettingModel, SettingRef, SgWrite, edit_value, sg_group_key, sg_edit_key, sgcb_u32, sgcb_base,
  edit_sg, clamp, u32_or_zero, group_value, resolve_setting, handle_sg_write, or_else,
}

-- The base of an SGCB does not start with `@`, as no MMS name does.
abbrev pub IsName : Option Bytes → Type 0
IsName none = Unit
IsName (some []) = Unit
IsName (some (c ∷ _)) = (64 == c) ≡ false

-- An item of the SGCB, or of a group, is not an item of the editing.
edit-sgcb :
    (domain canonical base attr : Bytes)
    → IsName (some base)
    → key_eq (domain, sg_edit_key canonical) (domain, base ++ 36 ∷ attr) ≡ false
unfolding bytes_eq
edit-sgcb domain canonical [] attr h = rw (bytes_eq_refl domain) refl
edit-sgcb domain canonical (c ∷ cs) attr h = rw (bytes_eq_refl domain, h) refl

edit-group :
    (domain canonical other : Bytes) (g : ℕ)
    → key_eq (domain, sg_edit_key canonical) (domain, sg_group_key g other) ≡ false
unfolding bytes_eq
edit-group domain canonical other g = rw (bytes_eq_refl domain) refl

sgcb_u32-edited :
    (map : Store) (domain canonical attr : Bytes) (value : MmsData) (base : Option Bytes)
    → IsName base
    → sgcb_u32 (put map (domain, sg_edit_key canonical) value) domain base (36 ∷ attr)
      ≡ sgcb_u32 map domain base (36 ∷ attr)
sgcb_u32-edited map domain canonical attr value none h = refl
sgcb_u32-edited map domain canonical attr value (some base) h = ap u32_or_zero (
    find-put_other map (domain, sg_edit_key canonical) (domain, base ++ 36 ∷ attr) value
      (edit-sgcb domain canonical base attr h))

group_value-edited :
    (model : SettingModel) (map : Store) (domain canonical attr : Bytes) (value : MmsData)
    (sr : SettingRef)
    → IsName (sgcb_base model domain)
    → group_value model (put map (domain, sg_edit_key canonical) value) domain sr (36 ∷ attr)
      ≡ group_value model map domain sr (36 ∷ attr)
unfolding group_value
group_value-edited model map domain canonical attr value sr h =
    ap
      (λ (u : ℕ).
        find (put map (domain, sg_edit_key canonical) value)
          (domain, sg_group_key (clamp sr.num_of_sgs u) sr.canonical))
      (sgcb_u32-edited map domain canonical attr value (sgcb_base model domain) h)
    ∙ find-put_other map (domain, sg_edit_key canonical)
        (
          domain,
          sg_group_key
              (clamp sr.num_of_sgs (sgcb_u32 map domain (sgcb_base model domain) (36 ∷ attr)))
              sr.canonical,
        )
        value
        (edit-group domain canonical sr.canonical
          (clamp sr.num_of_sgs (sgcb_u32 map domain (sgcb_base model domain) (36 ∷ attr))))

-- The store behind a write.
abbrev pub store_after : SettingModel → Bytes → Bytes → MmsData → SgWrite → Store → Store
store_after model domain item value write map =
    (handle_sg_write model domain item value write map).0.0

-- A view of a setting: the editable one, or the one of the active group.
abbrev pub view : Bool → Bytes → ℕ → SettingRef
view editable canonical n = record { editable = editable; canonical = canonical; num_of_sgs = n }

-- Where the base of the SGCB does not start with `@`, a value that is written to an editable setting is what the
-- editable view of the setting reads, and no setting's active view reads anything else than before.
pub handle_sg_write-editing :
    (model : SettingModel) (map : Store) (domain item canonical other : Bytes) (n m : ℕ)
    (value : MmsData)
    → IsName (sgcb_base model domain)
    → (resolve_setting model
          (store_after model domain item value (edit_value (view true canonical n)) map)
          domain
          (view true canonical n)
        ≡ some value)
      × (resolve_setting model
            (store_after model domain item value (edit_value (view true canonical n)) map)
            domain
            (view false other m)
          ≡ resolve_setting model map domain (view false other m))
unfolding handle_sg_write resolve_setting
handle_sg_write-editing model map domain item canonical other n m value h = (
  ap
      (λ (o : Option MmsData). or_else o (
        group_value model (put map (domain, sg_edit_key canonical) value) domain
          (view true canonical n) edit_sg))
      (find-put map (domain, sg_edit_key canonical) value),
  group_value-edited model map domain canonical (65 ∷ 99 ∷ 116 ∷ 83 ∷ 71 ∷ []) value
      (view false other m) h,
)
