-- ===== src/Tests/Device.antt =====
-- The concerns of the server on concrete input.
use iec_61850_studio.Base.{
  ℕ, ◌<◌, ◌+◌, ◌*◌, ◌-◌, List, [], ◌∷◌, Option, none, some, drop, All, ◌⊎◌, ◌↔◌, Bool, true, false,
  ltb, ◌≡◌, refl, arith, ◌||◌, ◌==◌, bytes_eq, bytes_eq_refl, ap,
}
use iec_61850_studio.Base.Words.{Bytes}
use iec_61850_studio.Base.Strings.{
  rsplit_once, strip_prefix, strip_suffix, replace_from, replace_first, trim_end, split,
}
use iec_61850_studio.Base.PairMaps.{Key, find, put, remove}
use iec_61850_studio.Ber.Data.{bool, int}
use iec_61850_studio.Transport.Error.{object_access_denied}
use iec_61850_studio.Mms.Server.Access.{
  Role, viewer, operator, engineer, may_write, is_operation, may_write_lem, passwords, authorize,
  IsEntitled, authorize_iff,
}
use iec_61850_studio.Mms.Server.Buffer.{BrcbBuffer, RcbRuntime, drain_buffer}
use iec_61850_studio.Mms.Server.Buffer.Invariant.{
  Change, changed, numbered, IsBuffer, changed-IsBuffer,
}
use iec_61850_studio.Mms.Server.Buffer.Delivery.{entries_of, CountsFrom, IsCaughtUp, drain-changed}
use iec_61850_studio.Mms.Server.Reservation.{
  Reservation, Reservations, check_rcb_reservation, release,
}
use iec_61850_studio.Mms.Server.Reservation.Exclusive.{
  Event, wrote, ended, run, refused, check_rcb_reservation-run, check_rcb_reservation-release,
}
use iec_61850_studio.Mms.Server.Store.{Store, failure, success}
use iec_61850_studio.Mms.Server.Control.{
  cf_of_co, ctl_model_of, sbo_timeout_of, status_item, co_base_of, oper_parts, is_blocked,
  object_not_selected, refuse, operate,
}
use iec_61850_studio.Mms.Server.Control.Selecting.{
  not_there, status_of, object_of, selected_then, operate-guarded, operate-select,
}

-- "LLN0$CF$Mod"
abbrev config_item : Bytes
config_item = 76 ∷ 76 ∷ 78 ∷ 48 ∷ 36 ∷ 67 ∷ 70 ∷ 36 ∷ 77 ∷ 111 ∷ 100 ∷ []

may_write_lem_example :
    (may_write viewer config_item ≡ false)
    × (may_write operator config_item ≡ is_operation config_item)
    × (may_write engineer config_item ≡ true)
may_write_lem_example = may_write_lem config_item

abbrev no_tokens : Bytes → Option Role
no_tokens t = none

authorize_iff_example :
    (authorize no_tokens
        (passwords ((1 ∷ [], viewer) ∷ (2 ∷ [], operator) ∷ []))
        (some (2 ∷ []))
        none
      ≡ some operator)
    ↔ IsEntitled no_tokens
        (passwords ((1 ∷ [], viewer) ∷ (2 ∷ [], operator) ∷ []))
        (some (2 ∷ []))
        none
        operator
authorize_iff_example =
    authorize_iff no_tokens (passwords ((1 ∷ [], viewer) ∷ (2 ∷ [], operator) ∷ [])) (some (2 ∷ []))
      none operator

abbrev small : BrcbBuffer
small = record { entries = []; next_id = 1; overflow = false; capacity = 2 }

small-IsBuffer : IsBuffer small
small-IsBuffer = record {
  first = 1;
  some_first = omega arith;
  run = tt;
  next = refl;
  fits = omega arith;
}

abbrev three : List Change
three = (0, bool true) ∷ (1, bool false) ∷ (0, bool false) ∷ []

changed-IsBuffer_example : IsBuffer (changed small three)
changed-IsBuffer_example = changed-IsBuffer small three small-IsBuffer (omega arith)

abbrev block : RcbRuntime
block = record { enabled = true; buffered = true; seq_num = 7; cursor = 0 }

block-IsCaughtUp : IsCaughtUp block small
block-IsCaughtUp = record { is_enabled = refl; is_buffered = refl; level = refl }

drain-changed_example :
    (entries_of (drain_buffer block (changed small three)).1 ≡ drop (3 - 2) (numbered 1 three))
    × CountsFrom 8 (drain_buffer block (changed small three)).1
    × All (λ r. r.overflow ≡ false || ltb 2 (0 + 3)) (drain_buffer block (changed small three)).1
    × IsCaughtUp
        (drain_buffer block (changed small three)).0.0
        (drain_buffer block (changed small three)).0.1
drain-changed_example =
    drain-changed block small three small-IsBuffer (omega arith) block-IsCaughtUp (omega arith)
      (omega arith)

-- "r$Resv"
abbrev resv_item : Bytes
resv_item = 114 ∷ 36 ∷ 82 ∷ 101 ∷ 115 ∷ 118 ∷ []

abbrev owned : Reservation
owned = record { conn_id = 1; resv_secs = 30; until = none }

abbrev held : Reservations
held = ((5 ∷ [], 114 ∷ []), owned) ∷ []

abbrev all_blocks : Key → Bool
all_blocks key = true

held_entry : find held (5 ∷ [], 114 ∷ []) ≡ some owned
unfolding find
held_entry = rw (bytes_eq_refl (5 ∷ []), bytes_eq_refl (114 ∷ [])) refl

split_item : rsplit_once 36 resv_item ≡ some (114 ∷ [], 82 ∷ 101 ∷ 115 ∷ 118 ∷ [])
unfolding rsplit_once
split_item = refl

abbrev attempts : List Event
attempts = wrote 2 10 (5 ∷ []) resv_item (bool true) ∷ ended 3 20 ∷ []

check_rcb_reservation-run_example :
    (find (run all_blocks held attempts) (5 ∷ [], 114 ∷ []) ≡ some owned)
    × (check_rcb_reservation all_blocks 2 30
          (5 ∷ [])
          resv_item
          (bool false)
          (run all_blocks held attempts)
        ≡ (true, run all_blocks held attempts))
check_rcb_reservation-run_example =
    check_rcb_reservation-run all_blocks held attempts owned 2 30 (5 ∷ []) resv_item (114 ∷ [])
      (82 ∷ 101 ∷ 115 ∷ 118 ∷ []) (bool false) held_entry refl
      (λ e. omega (arith, e), (λ e. omega (arith, e), tt)) (λ e. omega (arith, e)) split_item refl

check_rcb_reservation-release_example :
    refused
      (check_rcb_reservation all_blocks 2 40 (5 ∷ []) resv_item (bool true) (release 1 20 held))
    ≡ ltb 40 (20 + 30 * 1000000000)
check_rcb_reservation-release_example =
    check_rcb_reservation-release all_blocks held owned 2 20 40 (5 ∷ []) resv_item (114 ∷ [])
      (82 ∷ 101 ∷ 115 ∷ 118 ∷ []) (bool true) held_entry (omega arith) (λ e. omega (arith, e))
      split_item refl

-- "a$CO$p$Oper" and "a$CF$p$ctlModel"
abbrev oper : Bytes
oper = 97 ∷ 36 ∷ 67 ∷ 79 ∷ 36 ∷ 112 ∷ 36 ∷ 79 ∷ 112 ∷ 101 ∷ 114 ∷ []

abbrev model_item : Bytes
model_item = 97 ∷ 36 ∷ 67 ∷ 70 ∷ 36 ∷ 112 ∷ 36 ∷ 99 ∷ 116 ∷ 108 ∷ 77 ∷ 111 ∷ 100 ∷ 101 ∷ 108 ∷ []

abbrev values : Store
values = (([], model_item), int 2) ∷ []

oper_base : co_base_of oper ≡ 97 ∷ 36 ∷ 67 ∷ 79 ∷ 36 ∷ 112 ∷ []
unfolding co_base_of trim_end strip_suffix bytes_eq
oper_base = refl

sbo_model : ctl_model_of values [] (co_base_of oper) ≡ 2
unfolding ctl_model_of co_base_of trim_end strip_suffix bytes_eq cf_of_co split find
sbo_model = refl

abbrev anything : Key → Bool
anything key = true

operate-guarded_example :
    ((anything (status_of [] oper) ≡ false)
      × (operate anything 5 [] oper (bool true) [] values ≡ not_there [] values))
    ⊎ ((anything (status_of [] oper) ≡ true)
        × (find (operate anything 5 [] oper (bool true) [] values).selections (object_of [] oper)
            ≡ none)
        × (((expires : ℕ) × (find {A = ℕ} [] (object_of [] oper) ≡ some expires) × (5 < expires))
            ⊎ ((operate anything 5 [] oper (bool true) [] values).store ≡ values)
              × ((operate anything 5 [] oper (bool true) [] values).changes ≡ [])
              × ((operate anything 5 [] oper (bool true) [] values).result
                  ≡ failure object_access_denied)))
operate-guarded_example =
    operate-guarded anything 5 [] oper (bool true) [] values
      (ap (λ (k : ℕ). k == 2 || k == 4) sbo_model)

-- "a$ST$p$stVal" is another item than that of the control model.
still_sbo :
    ctl_model_of (put values (status_of [] oper) (oper_parts (bool true)).0) [] (co_base_of oper)
    ≡ 2
unfolding ctl_model_of co_base_of trim_end strip_suffix bytes_eq cf_of_co split find put status_item
    replace_from replace_first strip_prefix oper_parts
still_sbo = refl

timeout : sbo_timeout_of values [] (co_base_of oper) ≡ 30000000000
unfolding sbo_timeout_of co_base_of trim_end strip_suffix bytes_eq cf_of_co split find
timeout = refl

not_blocked : is_blocked values [] (co_base_of oper) (oper_parts (bool true)).1 ≡ false
unfolding is_blocked oper_parts
not_blocked = refl

operate-select_example :
    ((selected_then anything 1 5 [] oper (bool true) [] values).result ≡ success)
    × ((selected_then anything 1 5 [] oper (bool true) [] values).store
        ≡ put values (status_of [] oper) (oper_parts (bool true)).0)
    × (operate anything 6 [] oper
          (bool true)
          (selected_then anything 1 5 [] oper (bool true) [] values).selections
          (selected_then anything 1 5 [] oper (bool true) [] values).store
        ≡ refuse
            (remove
              (selected_then anything 1 5 [] oper (bool true) [] values).selections
              (object_of [] oper))
            (put values (status_of [] oper) (oper_parts (bool true)).0)
            object_not_selected)
operate-select_example =
    operate-select anything 1 5 6 [] oper (bool true) [] values refl
      (ap (λ (k : ℕ). k == 2 || k == 4) sbo_model) (ap (λ (k : ℕ). k == 2 || k == 4) still_sbo)
      (omega (arith, timeout)) not_blocked
