-- ===== src/Mms/Server/Store.antt =====
-- crates/iec61850-mms/src/server.rs: the values that the server holds, and the results of writing them
-- (crates/iec61850-mms/src/mms/write.rs). The channel of changes is the list of those that were sent.
use iec_61850_studio.Base.{List, [], ◌∷◌}
use iec_61850_studio.Base.PairMaps.{Key, put}
use iec_61850_studio.Ber.Data.{MmsData}
use iec_61850_studio.Transport.Error.{DataAccessError}

abbrev pub Store : Type 0
Store = List (Key × MmsData)

pub record ValueChange : Type 0 where
  pub item : Key
  pub value : MmsData

pub data WriteResult : Type 0 where
  success : WriteResult
  failure : DataAccessError → WriteResult

-- `apply_value`: the values, and the change that is published.
abbrev pub apply_value : Store → Key → MmsData → Store × List ValueChange
apply_value store item value = (put store item value, record { item = item; value = value } ∷ [])
