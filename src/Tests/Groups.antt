-- ===== src/Tests/Groups.antt =====
-- The setting groups of the server on concrete input: the domain "A", whose SGCB is "L$SP$SGCB", with two groups.
use iec_61850_studio.Base.{none, [], ◌∷◌, ◌++◌, some, true, false, bytes_eq, ◌≡◌, refl}
use iec_61850_studio.Base.Words.{Bytes}
use iec_61850_studio.Base.Maps.{get}
use iec_61850_studio.Base.PairMaps.{find, put, remove}
use iec_61850_studio.Base.Strings.{split_once, strip_prefix}
use iec_61850_studio.Ber.Data.{bool, int, uint}
use iec_61850_studio.Mms.Server.Store.{Store}
use iec_61850_studio.Mms.Server.Settings.{
  or_zero, in_groups, or_else, num_setting_groups, sgcb_u32, SettingModel, sgcb_base, edit_value,
  confirm_edit, active_value, act_sg, edit_sg, digits, sg_group_key, sg_edit_key, resolve_setting,
  setting_ref, classify_sg_write, staged, confirm_all, confirm_edit_sg, handle_sg_write,
}
use iec_61850_studio.Mms.Server.Settings.Confirming.{IsMap, confirm_edit_sg-find}
use iec_61850_studio.Mms.Server.Settings.Editing.{
  IsName, view, store_after, handle_sg_write-editing,
}

abbrev base : Bytes
base = 76 ∷ 36 ∷ 83 ∷ 80 ∷ 36 ∷ 83 ∷ 71 ∷ 67 ∷ 66 ∷ []

abbrev two_groups : SettingModel
two_groups = record { sgcbs = (65 ∷ [], base) ∷ []; sg_domains = (65 ∷ [], 2) ∷ [] }

-- "L$x"
abbrev setting : Bytes
setting = 76 ∷ 36 ∷ 120 ∷ []

-- "L$SE$x" and "L$SG$x"
abbrev edit_item : Bytes
edit_item = 76 ∷ 36 ∷ 83 ∷ 69 ∷ 36 ∷ 120 ∷ []

abbrev active_item : Bytes
active_item = 76 ∷ 36 ∷ 83 ∷ 71 ∷ 36 ∷ 120 ∷ []

-- Group 1 is active, group 2 is edited.
abbrev settings : Store
settings =
    ((65 ∷ [], base ++ act_sg), uint 1)
    ∷ ((65 ∷ [], base ++ edit_sg), uint 2)
    ∷ ((65 ∷ [], sg_group_key 1 setting), int 10)
    ∷ ((65 ∷ [], sg_group_key 2 setting), int 20)
    ∷ []

edit_item_lem :
    classify_sg_write two_groups (65 ∷ []) edit_item ≡ some (edit_value (view true setting 2))
unfolding classify_sg_write setting_ref get split_once bytes_eq
edit_item_lem = refl

active_item_lem : classify_sg_write two_groups (65 ∷ []) active_item ≡ some active_value
unfolding classify_sg_write setting_ref get split_once bytes_eq
active_item_lem = refl

abbrev edited : Store
edited = put settings (65 ∷ [], sg_edit_key setting) (int 30)

confirmed_lem :
    find
      (store_after two_groups (65 ∷ []) [] (bool true) confirm_edit edited)
      (65 ∷ [], sg_group_key 2 setting)
    ≡ some (int 30)
unfolding handle_sg_write confirm_edit_sg confirm_all staged get find put remove bytes_eq digits
    strip_prefix
confirmed_lem = refl

base_lem : IsName (sgcb_base two_groups (65 ∷ []))
unfolding get bytes_eq
base_lem = refl

handle_sg_write-editing_example :
    (resolve_setting two_groups
        (store_after two_groups
          (65 ∷ [])
          edit_item
          (int 30)
          (edit_value (view true setting 2))
          settings)
        (65 ∷ [])
        (view true setting 2)
      ≡ some (int 30))
    × (resolve_setting two_groups
          (store_after two_groups
            (65 ∷ [])
            edit_item
            (int 30)
            (edit_value (view true setting 2))
            settings)
          (65 ∷ [])
          (view false setting 2)
        ≡ resolve_setting two_groups settings (65 ∷ []) (view false setting 2))
handle_sg_write-editing_example =
    handle_sg_write-editing two_groups settings (65 ∷ []) edit_item setting setting 2 2 (int 30)
      base_lem

edited-IsMap : IsMap edited
unfolding IsMap put find bytes_eq digits
edited-IsMap = (refl, (refl, (refl, (refl, (refl, tt)))))

edited_in_range :
    in_groups
      (or_zero (num_setting_groups two_groups (65 ∷ [])))
      (sgcb_u32 edited (65 ∷ []) (sgcb_base two_groups (65 ∷ [])) edit_sg)
    ≡ true
unfolding get put find bytes_eq digits
edited_in_range = refl

confirm_edit_sg-find_example :
    (find (confirm_edit_sg two_groups (65 ∷ []) edited) (
      65 ∷ [],
      sg_group_key (sgcb_u32 edited (65 ∷ []) (sgcb_base two_groups (65 ∷ [])) edit_sg) setting,
    )
      ≡ or_else (find edited (65 ∷ [], sg_edit_key setting)) (
          find edited (
            65 ∷ [],
            sg_group_key
                (sgcb_u32 edited (65 ∷ []) (sgcb_base two_groups (65 ∷ [])) edit_sg)
                setting,
          )))
    × (find (confirm_edit_sg two_groups (65 ∷ []) edited) (65 ∷ [], sg_edit_key setting) ≡ none)
confirm_edit_sg-find_example =
    confirm_edit_sg-find two_groups (65 ∷ []) setting edited edited-IsMap edited_in_range
