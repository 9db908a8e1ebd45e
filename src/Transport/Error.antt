-- ===== src/Transport/Error.antt =====
-- error.rs: the errors of the MMS crate, without their texts.
use iec_61850_studio.Base.{ℕ, ◌≤◌, ◌<◌, ◌^◌, ◌≡◌, ◌⊎◌, ◌==◌, if◌then◌else◌, refl, arith}
use iec_61850_studio.Base.Result.{Result}
use iec_61850_studio.Ber.Error.{BerError}

pub data DataAccessError : Type 0 where
  object_invalidated hardware_fault temporarily_unavailable object_access_denied : DataAccessError
  object_access_unsupported object_non_existent object_attribute_inconsistent : DataAccessError
  type_unsupported type_inconsistent object_value_invalid : DataAccessError
  other : ℕ → DataAccessError

unfoldable pub from_code : ℕ → DataAccessError
from_code code =
    if code == 0
    then object_invalidated
    else if code == 1
    then hardware_fault
    else if code == 2
    then temporarily_unavailable
    else if code == 3
    then object_access_denied
    else if code == 4
    then object_access_unsupported
    else if code == 5
    then object_non_existent
    else if code == 6
    then object_attribute_inconsistent
    else if code == 7
    then type_unsupported
    else if code == 8
    then type_inconsistent
    else if code == 10
    then object_value_invalid
    else other code

unfoldable pub to_code : DataAccessError → ℕ
to_code object_invalidated = 0
to_code hardware_fault = 1
to_code temporarily_unavailable = 2
to_code object_access_denied = 3
to_code object_access_unsupported = 4
to_code object_non_existent = 5
to_code object_attribute_inconsistent = 6
to_code type_unsupported = 7
to_code type_inconsistent = 8
to_code object_value_invalid = 10
to_code (other c) = c

-- `out_of_fuel` is no value of the program: a loop of the model ran out of its bound.
pub data MmsError : Type 0 where
  io transport : MmsError
  ber : BerError → MmsError
  associate_rejected service_reject : MmsError
  data_access : DataAccessError → MmsError
  invoke_id_mismatch : ℕ → ℕ → MmsError
  unexpected_pdu connection_closed timeout : MmsError
  control_terminated : ℕ → MmsError
  control_timeout tls mapping : MmsError
  out_of_fuel : MmsError

abbrev pub MmsResult {ℓ} : Type ℓ → Type ℓ
MmsResult A = Result MmsError A

-- Every code of the protocol survives the error that it stands for.
pub to_code-from_code : (code : ℕ) → to_code (from_code code) ≡ code
unfolding to_code from_code
to_code-from_code code = ground arith

-- An error as the program makes it: one of the named ones, or the code of an `i64` that no named one has. The codes of the
-- named ones are 0 to 8 and 10.
abbrev pub IsError : DataAccessError → Type 0
IsError (other code) = ((code ≡ 9) ⊎ (11 ≤ code)) × (code < 2 ^ 64)
IsError _ = Unit

-- Every error survives its code, which is one of 64 bits.
pub from_code-to_code :
    (e : DataAccessError) → IsError e → (from_code (to_code e) ≡ e) × (to_code e < 2 ^ 64)
unfolding to_code from_code
from_code-to_code object_invalidated h = (refl, omega arith)
from_code-to_code hardware_fault h = (refl, omega arith)
from_code-to_code temporarily_unavailable h = (refl, omega arith)
from_code-to_code object_access_denied h = (refl, omega arith)
from_code-to_code object_access_unsupported h = (refl, omega arith)
from_code-to_code object_non_existent h = (refl, omega arith)
from_code-to_code object_attribute_inconsistent h = (refl, omega arith)
from_code-to_code type_unsupported h = (refl, omega arith)
from_code-to_code type_inconsistent h = (refl, omega arith)
from_code-to_code object_value_invalid h = (refl, omega arith)
from_code-to_code (other code) (unnamed, small) = (ground (arith, unnamed), small)
