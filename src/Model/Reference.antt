-- ===== src/Model/Reference.antt =====
-- crates/iec61850-model/src/reference.rs: a reference to an object, as a value and as a text. `str::trim` is a
-- parameter.
use iec_61850_studio.Base.{
  ℕ, ◌-◌, List, [], ◌∷◌, ◌++◌, Option, none, some, Bool, true, false, length, take, All, ◌≡◌, refl,
  sym, ap, ◌∙◌, arith, append_assoc, append-nil, length-append, take_front, if◌then◌else◌,
}
use iec_61850_studio.Base.Result.{Result, ok, err, ◌>>=◌}
use iec_61850_studio.Base.Words.{Bytes}
use iec_61850_studio.Base.Strings.{split, split_once, rsplit_once, strip_suffix, joined}
use iec_61850_studio.Base.Splitting.{
  Without, split-joined, split_once-append, rsplit_once-none, rsplit_once-append,
  strip_suffix-append, Without-append, Without-joined,
}
use iec_61850_studio.Model.Fc.{
  FunctionalConstraint, as_str, from_str, from_str-as_str, as_str-Without,
}

pub record ObjectReference : Type 0 where
  pub ld : Bytes
  pub ln : Bytes
  pub path : List Bytes
  pub fc : Option FunctionalConstraint

pub data ParseReferenceError : Type 0 where
  empty missing_slash missing_logical_node bad_fc : ParseReferenceError

abbrev pub ReferenceResult : Type 0 → Type 0
ReferenceResult A = Result ParseReferenceError A

unfoldable pub new : Bytes → Bytes → List Bytes → ObjectReference
new ld ln path = record { ld = ld; ln = ln; path = path; fc = none }

unfoldable pub without_fc : ObjectReference → ObjectReference
without_fc r = record r { fc = none }

-- "LD/LN.do.da"
unfoldable pub key : ObjectReference → Bytes
key r = r.ld ++ 47 ∷ (r.ln ++ joined 46 r.path)

abbrev pub fc_suffix : Option FunctionalConstraint → Bytes
fc_suffix none = []
fc_suffix (some fc) = 91 ∷ (as_str fc ++ 93 ∷ [])

-- `Display`
unfoldable pub display : ObjectReference → Bytes
display r = key r ++ fc_suffix r.fc

-- `inner.parse::<FunctionalConstraint>()`
abbrev pub parse_fc : Bytes → ReferenceResult FunctionalConstraint
parse_fc inner = found (from_str inner)
  where
    found : Option FunctionalConstraint → ReferenceResult FunctionalConstraint
    found none = err bad_fc
    found (some fc) = ok fc

-- The match on a last `]` and the last `[`: the body, and the constraint between them.
abbrev pub body_and_fc :
    Bytes
    → Option Bytes
    → Option (Bytes × Bytes)
    → ReferenceResult (Bytes × Option FunctionalConstraint)
body_and_fc s (some _) (some (body, behind)) = do
  fc ← parse_fc (take (length behind - 1) behind)
  ok (body, some fc)
body_and_fc s _ _ = ok (s, none)

abbrev pub slash_parts : Option (Bytes × Bytes) → ReferenceResult (Bytes × Bytes)
slash_parts none = err missing_slash
slash_parts (some parts) = ok parts

-- The pieces behind the slash.
abbrev pub from_pieces :
    Bytes → Option FunctionalConstraint → List Bytes → ReferenceResult ObjectReference
from_pieces ld fc [] = err missing_logical_node
from_pieces ld fc ([] ∷ path) = err missing_logical_node
from_pieces ld fc ((c ∷ ln) ∷ path) = ok (record { ld = ld; ln = c ∷ ln; path = path; fc = fc })

abbrev pub is_nil : Bytes → Bool
is_nil [] = true
is_nil (_ ∷ _) = false

-- The part behind the constraint.
abbrev pub parse_body : Bytes → Option FunctionalConstraint → ReferenceResult ObjectReference
parse_body body fc = do
  (ld, rest) ← slash_parts (split_once 47 body)
  (if is_nil ld
      then err missing_logical_node
      else if is_nil rest
      then err missing_logical_node
      else from_pieces ld fc (split 46 rest))

abbrev pub parse_trimmed : Bytes → ReferenceResult ObjectReference
parse_trimmed [] = err empty
parse_trimmed (c ∷ cs) = do
  let s = c ∷ cs
  (body, fc) ← body_and_fc s (strip_suffix (93 ∷ []) s) (rsplit_once 91 s)
  parse_body body fc

-- `FromStr`
unfoldable pub parse : (Bytes → Bytes) → Bytes → ReferenceResult ObjectReference
parse trim s = parse_trimmed (trim s)

-- Names that a text can hold apart: a device and a node that are not empty, no `/` in the device, no `.` in the
-- other names and no `[` in any.
pub record IsReference (r : ObjectReference) : Type 0 where
  pub ld_some : is_nil r.ld ≡ false
  pub ln_some : is_nil r.ln ≡ false
  pub ld_slash : Without 47 r.ld
  pub ln_dot : Without 46 r.ln
  pub path_dot : All (Without 46) r.path
  pub brackets : Without 91 r.ld × Without 91 r.ln × All (Without 91) r.path

from_pieces_lem :
    (ld : Bytes) (fc : Option FunctionalConstraint) (ln : Bytes) (path : List Bytes)
    → is_nil ln ≡ false
    → from_pieces ld fc (ln ∷ path) ≡ ok (record { ld = ld; ln = ln; path = path; fc = fc })
from_pieces_lem ld fc [] path h = cc
from_pieces_lem ld fc (c ∷ ln) path h = refl

is_nil-append : (x y : Bytes) → is_nil x ≡ false → is_nil (x ++ y) ≡ false
is_nil-append [] y h = cc
is_nil-append (c ∷ x) y h = refl

parse_body-key :
    (r : ObjectReference) (fc : Option FunctionalConstraint)
    → IsReference r
    → parse_body (key r) fc ≡ ok (record r { fc = fc })
unfolding key
parse_body-key r fc h =
    let rest = r.ln ++ joined 46 r.path in
    rw
      (
        split_once-append 47 r.ld rest h.ld_slash,
        h.ld_some,
        is_nil-append r.ln (joined 46 r.path) h.ln_some,
        split-joined 46 r.ln r.path h.ln_dot h.path_dot,
      )
      (from_pieces_lem r.ld fc r.ln r.path h.ln_some)

key-Without : (r : ObjectReference) → IsReference r → Without 91 (key r)
unfolding key
key-Without r h =
    let (ld, ln, path) = h.brackets in
    Without-append 91 r.ld (47 ∷ (r.ln ++ joined 46 r.path)) ld (
      (λ e. omega (arith, e)),
      Without-append 91 r.ln (joined 46 r.path) ln
          (Without-joined 91 46 r.path (λ e. omega (arith, e)) path),
    )

-- The constraint is found at the end, or none is.
body_and_fc-display :
    (r : ObjectReference) (fc : Option FunctionalConstraint)
    → IsReference r
    → body_and_fc
        (key r ++ fc_suffix fc)
        (strip_suffix (93 ∷ []) (key r ++ fc_suffix fc))
        (rsplit_once 91 (key r ++ fc_suffix fc))
      ≡ ok (key r, fc)
body_and_fc-display r none h =
    rw (append-nil (key r), rsplit_once-none 91 (key r) (key-Without r h))
      (plain (strip_suffix (93 ∷ []) (key r)))
  where
    plain : (o : Option Bytes) → body_and_fc (key r) o none ≡ ok (key r, none)
    plain none = refl
    plain (some _) = refl
body_and_fc-display r (some fc) h =
    let name = as_str fc in
    let behind = name ++ 93 ∷ [] in
    let s = key r ++ 91 ∷ behind in
    let ends : strip_suffix (93 ∷ []) s ≡ some (key r ++ 91 ∷ name) =
      ap (strip_suffix (93 ∷ [])) (sym (append_assoc (key r) (91 ∷ name) (93 ∷ [])))
      ∙ strip_suffix-append (key r ++ 91 ∷ name) (93 ∷ []) in
    let opens : rsplit_once 91 s ≡ some (key r, behind) =
      rsplit_once-append 91 (key r) behind
        (Without-append 91 name (93 ∷ []) ((as_str-Without fc).0) ((λ e. omega (arith, e)), tt)) in
    let inner : take (length behind - 1) behind ≡ name =
      ap (λ (n : ℕ). take n behind) {x = length behind - 1} {y = length name}
        (omega (arith, length-append name (93 ∷ [])))
      ∙ take_front name (93 ∷ []) in
    rw (ends, opens, inner, from_str-as_str fc) refl

parse_trimmed_some :
    (s : Bytes)
    → is_nil s ≡ false
    → parse_trimmed s ≡ (do
      (body, fc) ← body_and_fc s (strip_suffix (93 ∷ []) s) (rsplit_once 91 s)
      parse_body body fc)
parse_trimmed_some [] h = cc
parse_trimmed_some (c ∷ cs) h = refl

-- A reference whose names can be held apart is read back from its text, with its functional constraint or without,
-- where the text has no white space at its ends that `trim` would take.
pub parse-display :
    (trim : Bytes → Bytes) (r : ObjectReference)
    → IsReference r
    → trim (display r) ≡ display r
    → parse trim (display r) ≡ ok r
unfolding parse display
parse-display trim r h trimmed =
    let some_text : is_nil (key r ++ fc_suffix r.fc) ≡ false =
      unfold key in
      is_nil-append (r.ld ++ 47 ∷ (r.ln ++ joined 46 r.path)) (fc_suffix r.fc)
        (is_nil-append r.ld (47 ∷ (r.ln ++ joined 46 r.path)) h.ld_some) in
    ap parse_trimmed trimmed
    ∙ parse_trimmed_some (key r ++ fc_suffix r.fc) some_text
    ∙ rw (body_and_fc-display r r.fc h) (parse_body-key r r.fc h)
