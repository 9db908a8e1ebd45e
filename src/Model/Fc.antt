-- ===== src/Model/Fc.antt =====
-- crates/iec61850-model/src/fc.rs: the functional constraints and their names.
use iec_61850_studio.Base.{[], ◌∷◌, Option, none, some, true, if◌then◌else◌, bytes_eq, ◌≡◌, refl}
use iec_61850_studio.Base.Words.{Bytes}
use iec_61850_studio.Base.Splitting.{Without, lacks, lacks-Without}

pub data FunctionalConstraint : Type 0 where
  st mx sp sv cf dc sg se co bl : FunctionalConstraint
  ex rp br lg go gs ms us or sr : FunctionalConstraint

unfoldable pub as_str : FunctionalConstraint → Bytes
as_str st = 83 ∷ 84 ∷ []
as_str mx = 77 ∷ 88 ∷ []
as_str sp = 83 ∷ 80 ∷ []
as_str sv = 83 ∷ 86 ∷ []
as_str cf = 67 ∷ 70 ∷ []
as_str dc = 68 ∷ 67 ∷ []
as_str sg = 83 ∷ 71 ∷ []
as_str se = 83 ∷ 69 ∷ []
as_str co = 67 ∷ 79 ∷ []
as_str bl = 66 ∷ 76 ∷ []
as_str ex = 69 ∷ 88 ∷ []
as_str rp = 82 ∷ 80 ∷ []
as_str br = 66 ∷ 82 ∷ []
as_str lg = 76 ∷ 71 ∷ []
as_str go = 71 ∷ 79 ∷ []
as_str gs = 71 ∷ 83 ∷ []
as_str ms = 77 ∷ 83 ∷ []
as_str us = 85 ∷ 83 ∷ []
as_str or = 79 ∷ 82 ∷ []
as_str sr = 83 ∷ 82 ∷ []

-- The one error is an unknown name.
unfoldable pub from_str : Bytes → Option FunctionalConstraint
from_str s =
    if bytes_eq s (83 ∷ 84 ∷ [])
    then some st
    else if bytes_eq s (77 ∷ 88 ∷ [])
    then some mx
    else if bytes_eq s (83 ∷ 80 ∷ [])
    then some sp
    else if bytes_eq s (83 ∷ 86 ∷ [])
    then some sv
    else if bytes_eq s (67 ∷ 70 ∷ [])
    then some cf
    else if bytes_eq s (68 ∷ 67 ∷ [])
    then some dc
    else if bytes_eq s (83 ∷ 71 ∷ [])
    then some sg
    else if bytes_eq s (83 ∷ 69 ∷ [])
    then some se
    else if bytes_eq s (67 ∷ 79 ∷ [])
    then some co
    else if bytes_eq s (66 ∷ 76 ∷ [])
    then some bl
    else if bytes_eq s (69 ∷ 88 ∷ [])
    then some ex
    else if bytes_eq s (82 ∷ 80 ∷ [])
    then some rp
    else if bytes_eq s (66 ∷ 82 ∷ [])
    then some br
    else if bytes_eq s (76 ∷ 71 ∷ [])
    then some lg
    else if bytes_eq s (71 ∷ 79 ∷ [])
    then some go
    else if bytes_eq s (71 ∷ 83 ∷ [])
    then some gs
    else if bytes_eq s (77 ∷ 83 ∷ [])
    then some ms
    else if bytes_eq s (85 ∷ 83 ∷ [])
    then some us
    else if bytes_eq s (79 ∷ 82 ∷ [])
    then some or
    else if bytes_eq s (83 ∷ 82 ∷ [])
    then some sr
    else none

-- The name of a functional constraint is read as the same one.
pub from_str-as_str : (fc : FunctionalConstraint) → from_str (as_str fc) ≡ some fc
unfolding from_str as_str bytes_eq
from_str-as_str st = refl
from_str-as_str mx = refl
from_str-as_str sp = refl
from_str-as_str sv = refl
from_str-as_str cf = refl
from_str-as_str dc = refl
from_str-as_str sg = refl
from_str-as_str se = refl
from_str-as_str co = refl
from_str-as_str bl = refl
from_str-as_str ex = refl
from_str-as_str rp = refl
from_str-as_str br = refl
from_str-as_str lg = refl
from_str-as_str go = refl
from_str-as_str gs = refl
from_str-as_str ms = refl
from_str-as_str us = refl
from_str-as_str or = refl
from_str-as_str sr = refl

-- No name has a `[` or a `$`.
lacks_separators :
    (fc : FunctionalConstraint) → (lacks 91 (as_str fc) ≡ true) × (lacks 36 (as_str fc) ≡ true)
unfolding as_str lacks
lacks_separators st = (refl, refl)
lacks_separators mx = (refl, refl)
lacks_separators sp = (refl, refl)
lacks_separators sv = (refl, refl)
lacks_separators cf = (refl, refl)
lacks_separators dc = (refl, refl)
lacks_separators sg = (refl, refl)
lacks_separators se = (refl, refl)
lacks_separators co = (refl, refl)
lacks_separators bl = (refl, refl)
lacks_separators ex = (refl, refl)
lacks_separators rp = (refl, refl)
lacks_separators br = (refl, refl)
lacks_separators lg = (refl, refl)
lacks_separators go = (refl, refl)
lacks_separators gs = (refl, refl)
lacks_separators ms = (refl, refl)
lacks_separators us = (refl, refl)
lacks_separators or = (refl, refl)
lacks_separators sr = (refl, refl)

pub as_str-Without : (fc : FunctionalConstraint) → Without 91 (as_str fc) × Without 36 (as_str fc)
as_str-Without fc =
    let (bracket, dollar) = lacks_separators fc in
    (lacks-Without 91 (as_str fc) bracket, lacks-Without 36 (as_str fc) dollar)
