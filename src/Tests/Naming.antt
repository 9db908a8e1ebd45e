-- ===== src/Tests/Naming.antt =====
-- References, MMS names and time stamps on concrete input.
use iec_61850_studio.Base.{ℕ, [], ◌∷◌, some, true, All, ◌≡◌, refl}
use iec_61850_studio.Base.Result.{ok, ◌>>=◌}
use iec_61850_studio.Base.Splitting.{Without, lacks, lacks-Without}
use iec_61850_studio.Model.Fc.{st, as_str}
use iec_61850_studio.Model.Reference.{ObjectReference, IsReference, display, parse, parse-display}
use iec_61850_studio.Mms.Mapping.{
  object_reference_to_mms, mms_to_object_reference, mms_to_object_reference-to_mms,
}

-- "LD0/LLN0.Mod.stVal[ST]"
abbrev mod_state : ObjectReference
mod_state = record {
  ld = 76 ∷ 68 ∷ 48 ∷ [];
  ln = 76 ∷ 76 ∷ 78 ∷ 48 ∷ [];
  path = (77 ∷ 111 ∷ 100 ∷ []) ∷ (115 ∷ 116 ∷ 86 ∷ 97 ∷ 108 ∷ []) ∷ [];
  fc = some st;
}

mod_state-IsReference : IsReference mod_state
unfolding lacks
mod_state-IsReference = record {
  ld_some = refl;
  ln_some = refl;
  ld_slash = lacks-Without 47 mod_state.ld refl;
  ln_dot = lacks-Without 46 mod_state.ln refl;
  path_dot = path_lacks 46 refl refl;
  brackets = (
    lacks-Without 91 mod_state.ld refl,
    lacks-Without 91 mod_state.ln refl,
    path_lacks 91 refl refl,
  );
}
  where
    path_lacks :
        (c : ℕ)
        → lacks c (77 ∷ 111 ∷ 100 ∷ []) ≡ true
        → lacks c (115 ∷ 116 ∷ 86 ∷ 97 ∷ 108 ∷ []) ≡ true
        → All (Without c) mod_state.path
    path_lacks c a b = (
      lacks-Without c (77 ∷ 111 ∷ 100 ∷ []) a,
      (lacks-Without c (115 ∷ 116 ∷ 86 ∷ 97 ∷ 108 ∷ []) b, tt),
    )

parse-display_example : parse (λ s. s) (display mod_state) ≡ ok mod_state
parse-display_example = parse-display (λ s. s) mod_state mod_state-IsReference refl

ln_lacks : Without 36 mod_state.ln
unfolding lacks
ln_lacks = lacks-Without 36 mod_state.ln refl

path_lacks : All (Without 36) mod_state.path
unfolding lacks
path_lacks = (
  lacks-Without 36 (77 ∷ 111 ∷ 100 ∷ []) refl,
  (lacks-Without 36 (115 ∷ 116 ∷ 86 ∷ 97 ∷ 108 ∷ []) refl, tt),
)

mms_to_object_reference-to_mms_example :
    object_reference_to_mms mod_state >>= (λ (domain, item). mms_to_object_reference domain item)
    ≡ ok mod_state
mms_to_object_reference-to_mms_example =
    mms_to_object_reference-to_mms mod_state st refl refl ln_lacks path_lacks

-- "LLN0$ST$Mod$stVal"
mms_name :
    object_reference_to_mms mod_state
    ≡ ok (
      76 ∷ 68 ∷ 48 ∷ [],
      76 ∷ 76 ∷ 78 ∷ 48 ∷ 36 ∷ 83 ∷ 84 ∷ 36 ∷ 77 ∷ 111 ∷ 100 ∷ 36 ∷ 115 ∷ 116 ∷ 86 ∷ 97 ∷ 108 ∷ [],
    )
unfolding object_reference_to_mms as_str
mms_name = refl
