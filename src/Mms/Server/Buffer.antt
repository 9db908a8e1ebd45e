-- ===== src/Mms/Server/Buffer.antt =====
-- crates/iec61850-mms/src/server.rs: the buffer of a buffered report control block. The task that fills it, one change
-- at a time, and the connection that drains it are steps; a report is the entry that it carries with the
-- sequence number, the entry identifier and the overflow bit. An identifier is a `u64`,
-- a sequence number a `u32`, and both wrap around.
pub mod Invariant
pub mod Delivery
use iec_61850_studio.Base.{
  ℕ, zero, suc, ◌+◌, ◌-◌, ◌%◌, ◌^◌, ◌≤◌, ◌<◌, List, [], ◌∷◌, ◌++◌, Option, none, some, Bool, true,
  false, ltb, not, ◌&&◌, ◌||◌, length, drop, if◌then◌else◌,
}
use iec_61850_studio.Base.Words.{Bytes, from_be}
use iec_61850_studio.Ber.Data.{MmsData, octets}

abbrev pub brcb_capacity : ℕ
brcb_capacity = 64

pub record BufEntry : Type 0 where
  pub entry_id : ℕ
  pub member_idx : ℕ
  pub value : MmsData

pub record BrcbBuffer : Type 0 where
  pub entries : List BufEntry
  pub next_id : ℕ
  pub overflow : Bool
  pub capacity : ℕ

unfoldable pub new : BrcbBuffer
new = record { entries = []; next_id = 1; overflow = false; capacity = brcb_capacity }

-- `self.entries.back().map(|e| e.entry_id).unwrap_or(0)`
abbrev pub last_id : List BufEntry → ℕ
last_id [] = 0
last_id (e ∷ []) = e.entry_id
last_id (e ∷ f ∷ es) = last_id (f ∷ es)

unfoldable pub max_id : BrcbBuffer → ℕ
max_id buf = last_id buf.entries

-- The loop `while buf.entries.len() > buf.capacity { pop_front; overflow = true }`.
unfoldable pub trim : ℕ → List BufEntry → Bool → List BufEntry × Bool
trim capacity [] overflow = ([], overflow)
trim capacity (e ∷ es) overflow =
    let rest = trim capacity es true in
    if ltb capacity (length (e ∷ es)) then rest else (e ∷ es, overflow)

-- What `buffering_task` does to the buffer on a change of a member.
unfoldable pub buffer_change : ℕ → MmsData → BrcbBuffer → BrcbBuffer
buffer_change idx value buf =
    let entry : BufEntry = record { entry_id = buf.next_id; member_idx = idx; value = value } in
    let (entries, overflow) = trim buf.capacity (buf.entries ++ entry ∷ []) buf.overflow in
    record {
      entries = entries;
      next_id = (buf.next_id + 1) % 2 ^ 64;
      overflow = overflow;
      capacity = buf.capacity;
    }

-- The part of `RcbRuntime` that concerns the buffer.
pub record RcbRuntime : Type 0 where
  pub enabled : Bool
  pub buffered : Bool
  pub seq_num : ℕ
  pub cursor : ℕ

-- What goes into `make_buffered_report`.
pub record BufferedReport : Type 0 where
  pub seq_num : ℕ
  pub entry : BufEntry
  pub overflow : Bool

-- `filter(|e| e.entry_id > rcb.cursor)`
unfoldable pub pending : ℕ → List BufEntry → List BufEntry
pending cursor [] = []
pending cursor (e ∷ es) =
    let rest = pending cursor es in if ltb cursor e.entry_id then e ∷ rest else rest

-- The loop over the pending entries.
unfoldable pub send : Bool → RcbRuntime → List BufEntry → RcbRuntime × List BufferedReport
send overflow rcb [] = (rcb, [])
send overflow rcb (e ∷ es) =
    let moved = record rcb { seq_num = (rcb.seq_num + 1) % 2 ^ 32; cursor = e.entry_id } in
    let (last, reports) = send overflow moved es in
    (last, record { seq_num = moved.seq_num; entry = e; overflow = overflow } ∷ reports)

-- `!pending.is_empty()`
abbrev pub some_left : List BufEntry → Bool
some_left [] = false
some_left (_ ∷ _) = true

-- `drain_buffer` on a block that the connection knows and a buffer that is there.
unfoldable pub drain_buffer :
    RcbRuntime → BrcbBuffer → (RcbRuntime × BrcbBuffer) × List BufferedReport
drain_buffer rcb buf =
    let entries = pending rcb.cursor buf.entries in
    let (moved, reports) = send buf.overflow rcb entries in
    if not rcb.enabled || not rcb.buffered then ((rcb, buf), []) else (
      (moved, record buf { overflow = if some_left entries then false else buf.overflow }),
      reports,
    )

-- `decode_entry_id`: the last eight octets
unfoldable pub decode_entry_id : MmsData → ℕ
decode_entry_id (octets o) = from_be (drop (length o - 8) o)
decode_entry_id _ = 0

unfoldable pub set_entry_id :
    MmsData → RcbRuntime → BrcbBuffer → (RcbRuntime × BrcbBuffer) × List BufferedReport
set_entry_id value rcb buf =
    if not rcb.enabled || not rcb.buffered
    then ((rcb, buf), [])
    else drain_buffer (record rcb { cursor = decode_entry_id value }) buf

unfoldable pub purge_buf : RcbRuntime → BrcbBuffer → RcbRuntime × BrcbBuffer
purge_buf rcb buf = (record rcb { cursor = 0 }, record buf { entries = []; overflow = false })
