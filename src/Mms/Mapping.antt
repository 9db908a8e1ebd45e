-- ===== src/Mms/Mapping.antt =====
-- crates/iec61850-mms/src/mapping.rs: references to objects and their MMS names, by IEC 61850-8-1.
use iec_61850_studio.Base.{
  List, [], ◌∷◌, ◌++◌, Option, none, some, false, All, ◌≡◌, refl, sym, ap, ◌∙◌,
}
use iec_61850_studio.Base.Result.{Result, ok, err, ◌>>=◌}
use iec_61850_studio.Base.Words.{Bytes}
use iec_61850_studio.Base.Strings.{split, joined}
use iec_61850_studio.Base.Splitting.{Without, split-joined}
use iec_61850_studio.Model.Fc.{
  FunctionalConstraint, as_str, from_str, from_str-as_str, as_str-Without,
}
use iec_61850_studio.Model.Reference.{ObjectReference, is_nil}

pub data MappingError : Type 0 where
  missing_fc unexpected_item_id bad_fc : MappingError

abbrev pub MappingResult : Type 0 → Type 0
MappingResult A = Result MappingError A

abbrev pub with_fc : ObjectReference → Option FunctionalConstraint → MappingResult (Bytes × Bytes)
with_fc obj none = err missing_fc
with_fc obj (some fc) = ok (obj.ld, obj.ln ++ 36 ∷ (as_str fc ++ joined 36 obj.path))

unfoldable pub object_reference_to_mms : ObjectReference → MappingResult (Bytes × Bytes)
object_reference_to_mms obj = with_fc obj obj.fc

abbrev pub known_fc :
    Bytes → Bytes → List Bytes → Option FunctionalConstraint → MappingResult ObjectReference
known_fc domain_id ln path none = err bad_fc
known_fc domain_id ln path (some fc) =
    ok (record { ld = domain_id; ln = ln; path = path; fc = some fc })

-- The pieces between the `$`.
abbrev pub from_parts : Bytes → List Bytes → MappingResult ObjectReference
from_parts domain_id [] = err unexpected_item_id
from_parts domain_id ([] ∷ parts) = err unexpected_item_id
from_parts domain_id ((c ∷ ln) ∷ []) = err unexpected_item_id
from_parts domain_id ((c ∷ ln) ∷ fc_str ∷ path) = known_fc domain_id (c ∷ ln) path (from_str fc_str)

unfoldable pub mms_to_object_reference : Bytes → Bytes → MappingResult ObjectReference
mms_to_object_reference domain_id item_id = from_parts domain_id (split 36 item_id)

from_parts_lem :
    (domain_id ln fc_str : Bytes) (path : List Bytes)
    → is_nil ln ≡ false
    → from_parts domain_id (ln ∷ fc_str ∷ path) ≡ known_fc domain_id ln path (from_str fc_str)
from_parts_lem domain_id [] fc_str path h = cc
from_parts_lem domain_id (c ∷ ln) fc_str path h = refl

-- A reference with a functional constraint, with a node that is not empty and with no `$` in the names of the node
-- and of the path, has MMS names from which the same reference is made again.
pub mms_to_object_reference-to_mms :
    (obj : ObjectReference) (fc : FunctionalConstraint)
    → obj.fc ≡ some fc
    → is_nil obj.ln ≡ false
    → Without 36 obj.ln
    → All (Without 36) obj.path
    → object_reference_to_mms obj >>= (λ (domain, item). mms_to_object_reference domain item)
      ≡ ok obj
unfolding object_reference_to_mms mms_to_object_reference
mms_to_object_reference-to_mms obj fc e some_ln ln path =
    let pieces = split-joined 36 obj.ln (as_str fc ∷ obj.path) ln ((as_str-Without fc).1, path) in
    ap (λ o. with_fc obj o >>= (λ (domain, item). from_parts domain (split 36 item))) e
    ∙ ap (from_parts obj.ld) pieces
    ∙ from_parts_lem obj.ld obj.ln (as_str fc) obj.path some_ln
    ∙ ap (known_fc obj.ld obj.ln obj.path) (from_str-as_str fc)
    ∙ ap (λ o. ok (record { ld = obj.ld; ln = obj.ln; path = obj.path; fc = o })) (sym e)

-- The names of an object tell it apart: two such references with the same MMS names are the same reference.
pub object_reference_to_mms-injective :
    (a b : ObjectReference) (f g : FunctionalConstraint)
    → a.fc ≡ some f
    → b.fc ≡ some g
    → is_nil a.ln ≡ false
    → is_nil b.ln ≡ false
    → Without 36 a.ln × All (Without 36) a.path
    → Without 36 b.ln × All (Without 36) b.path
    → object_reference_to_mms a ≡ object_reference_to_mms b
    → a ≡ b
object_reference_to_mms-injective a b f g ea eb la lb (na, pa) (nb, pb) same =
    let both : ok a ≡ ok b =
      sym (mms_to_object_reference-to_mms a f ea la na pa)
      ∙ ap (λ m. m >>= (λ (domain, item). mms_to_object_reference domain item)) same
      ∙ mms_to_object_reference-to_mms b g eb lb nb pb in
    ap (value_or a) both
  where
    value_or : ObjectReference → MappingResult ObjectReference → ObjectReference
    value_or d (ok v) = v
    value_or d (err _) = d
