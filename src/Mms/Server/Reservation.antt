-- ===== src/Mms/Server/Reservation.antt =====
-- crates/iec61850-mms/src/server.rs: the reservation of report control blocks, `check_rcb_reservation` and the guard that
-- runs when a connection ends. Instants are in nanoseconds.
pub mod Exclusive
use iec_61850_studio.Base.{
  ℕ, ◌+◌, ◌*◌, ◌%◌, ◌^◌, List, [], ◌∷◌, Option, none, some, Bool, true, false, ltb, ◌==◌, not, ◌&&◌,
  if◌then◌else◌, bytes_eq,
}
use iec_61850_studio.Base.Words.{Bytes}
use iec_61850_studio.Base.Strings.{rsplit_once}
use iec_61850_studio.Base.PairMaps.{Key, find, put, remove}
use iec_61850_studio.Ber.Data.{MmsData, bool, int, uint}

pub record Reservation : Type 0 where
  pub conn_id : ℕ
  pub resv_secs : ℕ
  pub until : Option ℕ

abbrev pub Reservations : Type 0
Reservations = List (Key × Reservation)

abbrev pub not_over : Option ℕ → ℕ → Bool
not_over none now = true
not_over (some t) now = ltb now t

unfoldable pub holds : Reservation → ℕ → Bool
holds r now = not_over r.until now

abbrev pub is_true : MmsData → Bool
is_true (bool b) = b
is_true _ = false

-- The seconds that a value of `ResvTms` asks for: `max(0) as u32` of an `i64`, `as u32` of a `u64`.
abbrev pub seconds_of : MmsData → ℕ
seconds_of (int n) = if ltb n (2 ^ 63) then n % 2 ^ 32 else 0
seconds_of (uint n) = n % 2 ^ 32
seconds_of _ = 0

-- "Resv", "ResvTms" and "RptEna"
abbrev pub resv_attr : Bytes
resv_attr = 82 ∷ 101 ∷ 115 ∷ 118 ∷ []

abbrev pub resv_tms_attr : Bytes
resv_tms_attr = 82 ∷ 101 ∷ 115 ∷ 118 ∷ 84 ∷ 109 ∷ 115 ∷ []

abbrev pub rpt_ena_attr : Bytes
rpt_ena_attr = 82 ∷ 112 ∷ 116 ∷ 69 ∷ 110 ∷ 97 ∷ []

-- Whether another connection holds the block.
abbrev pub held_by_other : ℕ → ℕ → Option Reservation → Bool
held_by_other conn_id now none = false
held_by_other conn_id now (some r) = not (r.conn_id == conn_id) && holds r now

-- `Some(r) if r.conn_id == self.conn_id`
abbrev pub is_mine : ℕ → Option Reservation → Bool
is_mine conn_id none = false
is_mine conn_id (some r) = r.conn_id == conn_id

abbrev pub fresh : ℕ → ℕ → Reservation
fresh conn_id secs = record { conn_id = conn_id; resv_secs = secs; until = none }

-- The match on the attribute, once the write may proceed.
unfoldable pub update : ℕ → Key → Bytes → MmsData → Reservations → Reservations
update conn_id key attr value g =
    if bytes_eq attr resv_attr
    then (if is_true value then put g key (fresh conn_id 0) else remove g key)
    else if bytes_eq attr resv_tms_attr
    then (if ltb 0 (seconds_of value)
        then put g key (fresh conn_id (seconds_of value))
        else remove g key)
    else if bytes_eq attr rpt_ena_attr && is_true value
    then (if is_mine conn_id (find g key) then g else put g key (fresh conn_id 0))
    else g

-- On a block that is known: whether the write is refused (`TemporarilyUnavailable`), and the reservations.
unfoldable pub check_block : ℕ → ℕ → Key → Bytes → MmsData → Reservations → Bool × Reservations
check_block conn_id now key attr value g =
    if held_by_other conn_id now (find g key)
    then (true, g)
    else (false, update conn_id key attr value g)

-- `is_rcb` is `model.rcb_def(domain, base).is_some()`
abbrev pub check_split :
    (Key → Bool)
    → ℕ
    → ℕ
    → Bytes
    → Option (Bytes × Bytes)
    → MmsData
    → Reservations
    → Bool × Reservations
check_split is_rcb conn_id now domain none value g = (false, g)
check_split is_rcb conn_id now domain (some (base, attr)) value g =
    if is_rcb (domain, base)
    then check_block conn_id now (domain, base) attr value g
    else (false, g)

unfoldable pub check_rcb_reservation :
    (Key → Bool) → ℕ → ℕ → Bytes → Bytes → MmsData → Reservations → Bool × Reservations
check_rcb_reservation is_rcb conn_id now domain item value g =
    check_split is_rcb conn_id now domain (rsplit_once 36 item) value g

-- `Drop` of the guard: what becomes of the reservations of a connection that ends.
unfoldable pub release : ℕ → ℕ → Reservations → Reservations
release conn_id now [] = []
release conn_id now ((k, r) ∷ g) =
    let rest = release conn_id now g in
    if not (r.conn_id == conn_id)
    then (k, r) ∷ rest
    else if ltb 0 r.resv_secs
    then (k, record r { until = some (now + r.resv_secs * 1000000000) }) ∷ rest
    else rest
