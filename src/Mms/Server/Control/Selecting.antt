-- ===== src/Mms/Server/Control/Selecting.antt =====
-- crates/iec61850-mms/src/server.rs: select before operate. A control object that wants a selection operates on one that
-- is still valid, and once.
use iec_61850_studio.Base.{
  ℕ, ◌+◌, ◌<◌, [], Option, none, some, Bool, true, false, leb, ◌==◌, not, ◌&&◌, ◌||◌, if◌then◌else◌,
  ◌≡◌, ◌⊎◌, inl, inr, refl, sym, ap, ◌∙◌, arith, Bool-cases, subst,
}
use iec_61850_studio.Base.Words.{Bytes}
use iec_61850_studio.Base.PairMaps.{Key, find, put, remove, find-put, find-remove}
use iec_61850_studio.Ber.Data.{MmsData}
use iec_61850_studio.Transport.Error.{object_access_denied, object_non_existent}
use iec_61850_studio.Mms.Server.Store.{Store, success, failure}
use iec_61850_studio.Mms.Server.Control.{
  Selections, Operated, object_not_selected, time_limit_over, is_sbo, ctl_model_of, sbo_timeout_of,
  select, oper_parts, status_item, co_base_of, is_blocked, refuse, execute, on_selection, operate,
}

-- The parts of a command.
abbrev pub status_of : Bytes → Bytes → Key
status_of domain oper_item = (domain, status_item oper_item)

abbrev pub object_of : Bytes → Bytes → Key
object_of domain oper_item = (domain, co_base_of oper_item)

abbrev pub kind_at : Store → Bytes → Bytes → ℕ
kind_at store domain oper_item = ctl_model_of store domain (co_base_of oper_item)

abbrev pub blocked_at : Store → Bytes → Bytes → MmsData → Bool
blocked_at store domain oper_item value =
    is_blocked store domain (co_base_of oper_item) (oper_parts value).1

abbrev running : Bytes → Bytes → MmsData → Store → Selections → Operated
running domain oper_item value store sel =
    execute sel store (kind_at store domain oper_item) (blocked_at store domain oper_item value)
      (status_of domain oper_item) (oper_parts value).0

is_sbo-known : (kind : ℕ) → is_sbo kind ≡ true → not (leb 1 kind && leb kind 4) ≡ false
is_sbo-known kind e = ground arith

-- An object that wants a selection and is there.
operate_sbo :
    (contains : Key → Bool) (now : ℕ) (domain oper_item : Bytes) (value : MmsData)
    (selections : Selections) (store : Store)
    → contains (status_of domain oper_item) ≡ true
    → is_sbo (kind_at store domain oper_item) ≡ true
    → operate contains now domain oper_item value selections store
      ≡ on_selection now
          (remove selections (object_of domain oper_item))
          store
          (find selections (object_of domain oper_item))
          (running domain oper_item value store)
unfolding operate
operate_sbo contains now domain oper_item value selections store there sbo =
    rw (there, is_sbo-known (kind_at store domain oper_item) sbo, sbo) refl

execute-selections :
    (selections : Selections) (store : Store) (kind : ℕ) (blocked : Bool) (item : Key)
    (ctl_val : MmsData)
    → (execute selections store kind blocked item ctl_val).selections ≡ selections
unfolding execute
execute-selections selections store kind true item ctl_val =
    elim (Bool-cases (kind == 3 || kind == 4)) [ inl e ↦ rw e refl | inr e ↦ rw e refl ]
execute-selections selections store kind false item ctl_val =
    elim (Bool-cases (kind == 3 || kind == 4)) [ inl e ↦ rw e refl | inr e ↦ rw e refl ]

-- A command that is not blocked writes its value and succeeds.
execute-free :
    (selections : Selections) (store : Store) (kind : ℕ) (item : Key) (ctl_val : MmsData)
    → ((execute selections store kind false item ctl_val).result ≡ success)
      × ((execute selections store kind false item ctl_val).store ≡ put store item ctl_val)
unfolding execute
execute-free selections store kind item ctl_val = elim (Bool-cases (kind == 3 || kind == 4)) [
  | inl e ↦ rw e (refl, refl)
  | inr e ↦ rw e (refl, refl)
]

-- The outcome for an object that wants a selection: whatever it is, the selection is gone.
on_selection_lem :
    (now : ℕ) (removed : Selections) (store : Store) (o : Option ℕ) (go : Selections → Operated)
    → ((go removed).selections ≡ removed)
    → ((on_selection now removed store o go).selections ≡ removed)
      × (((expires : ℕ) × (o ≡ some expires) × (now < expires))
          ⊎ ((on_selection now removed store o go).store ≡ store)
            × ((on_selection now removed store o go).changes ≡ [])
            × ((on_selection now removed store o go).result ≡ failure object_access_denied))
on_selection_lem now removed store none go h = (refl, inr (refl, refl, refl))
on_selection_lem now removed store (some expires) go h = elim (Bool-cases (leb expires now)) [
  | inl over ↦ rw over (refl, inr (refl, refl, refl))
  | inr valid ↦ rw valid (h, inl (expires, refl, ground (arith, valid)))
]

-- A command that fails without a trace.
abbrev pub not_there : Selections → Store → Operated
not_there selections store = record {
  selections = selections;
  store = store;
  changes = [];
  result = failure object_non_existent;
  unsolicited = [];
}

-- A command to an object whose status item does not exist.
operate_missing :
    (contains : Key → Bool) (now : ℕ) (domain oper_item : Bytes) (value : MmsData)
    (selections : Selections) (store : Store)
    → contains (status_of domain oper_item) ≡ false
    → operate contains now domain oper_item value selections store ≡ not_there selections store
unfolding operate
operate_missing contains now domain oper_item value selections store missing = rw missing refl

-- A command to an object whose control model wants a selection. Where the status item does not exist it fails with
-- object-non-existent, changes neither a value nor a selection and publishes nothing. Where the item exists the command takes the
-- selection away, whatever comes of it: it changes a value only where there was a selection that had not
-- expired; without one it is denied, writes nothing and publishes nothing.
pub operate-guarded :
    (contains : Key → Bool) (now : ℕ) (domain oper_item : Bytes) (value : MmsData)
    (selections : Selections) (store : Store)
    → is_sbo (kind_at store domain oper_item) ≡ true
    → ((contains (status_of domain oper_item) ≡ false)
        × (operate contains now domain oper_item value selections store
            ≡ not_there selections store))
      ⊎ ((contains (status_of domain oper_item) ≡ true)
          × (find
                (operate contains now domain oper_item value selections store).selections
                (object_of domain oper_item)
              ≡ none)
          × (((expires : ℕ) × (find selections (object_of domain oper_item) ≡ some expires)
                × (now < expires))
              ⊎ ((operate contains now domain oper_item value selections store).store ≡ store)
                × ((operate contains now domain oper_item value selections store).changes ≡ [])
                × ((operate contains now domain oper_item value selections store).result
                    ≡ failure object_access_denied)))
operate-guarded contains now domain oper_item value selections store sbo =
    let key = object_of domain oper_item in
    let removed = remove selections key in
    let (gone, outcome) =
      on_selection_lem now removed store (find selections key)
        (running domain oper_item value store) (execute-selections removed store _ _ _ _) in
    elim (Bool-cases (contains (status_of domain oper_item))) [
      | inl there ↦ inr (
        there,
        ap (λ (o : Operated). find o.selections key)
              (operate_sbo contains now domain oper_item value selections store there sbo)
            ∙ ap (λ (s : Selections). find s key) gone
            ∙ find-remove selections key,
        rw (operate_sbo contains now domain oper_item value selections store there sbo) outcome,
      )
      | inr missing ↦
          inl
            (missing, operate_missing contains now domain oper_item value selections store missing)
    ]

-- A command on a valid selection that no interlock blocks.
operate-selected :
    (contains : Key → Bool) (now expires : ℕ) (domain oper_item : Bytes) (value : MmsData)
    (selections : Selections) (store : Store)
    → contains (status_of domain oper_item) ≡ true
    → is_sbo (kind_at store domain oper_item) ≡ true
    → find selections (object_of domain oper_item) ≡ some expires
    → now < expires
    → blocked_at store domain oper_item value ≡ false
    → operate contains now domain oper_item value selections store
      ≡ execute
          (remove selections (object_of domain oper_item))
          store
          (kind_at store domain oper_item)
          false
          (status_of domain oper_item)
          (oper_parts value).0
operate-selected contains now expires domain oper_item value selections store there sbo found
      in_time free =
    let removed = remove selections (object_of domain oper_item) in
    let go = running domain oper_item value store in
    let valid : leb expires now ≡ false = ground (arith, in_time) in
    operate_sbo contains now domain oper_item value selections store there sbo
    ∙ ap (λ (o : Option ℕ). on_selection now removed store o go) found
    ∙ ap (λ (b : Bool). if b then refuse removed store time_limit_over else go removed) valid
    ∙ ap
        (λ (b : Bool).
          execute removed store (kind_at store domain oper_item) b (status_of domain oper_item)
            (oper_parts value).0)
        free

-- A command with no selection.
operate-unselected :
    (contains : Key → Bool) (now : ℕ) (domain oper_item : Bytes) (value : MmsData)
    (selections : Selections) (store : Store)
    → contains (status_of domain oper_item) ≡ true
    → is_sbo (kind_at store domain oper_item) ≡ true
    → find selections (object_of domain oper_item) ≡ none
    → operate contains now domain oper_item value selections store
      ≡ refuse (remove selections (object_of domain oper_item)) store object_not_selected
operate-unselected contains now domain oper_item value selections store there sbo missing =
    operate_sbo contains now domain oper_item value selections store there sbo
    ∙ ap
        (λ (o : Option ℕ).
          on_selection now (remove selections (object_of domain oper_item)) store o
            (running domain oper_item value store))
        missing

abbrev second : Bool × Selections → Selections
second (b, s) = s

-- What a command leaves behind a selection of its object at `start`.
abbrev pub selected_then :
    (Key → Bool) → ℕ → ℕ → Bytes → Bytes → MmsData → Selections → Store → Operated
selected_then contains start now domain oper_item value selections store =
    operate contains now domain oper_item value
      (select store start domain (co_base_of oper_item) selections).1 store

-- A command within the time of a selection of its object, which wants one and whose status item exists, and that no
-- interlock blocks, succeeds and writes its value. The same command again, where the object still wants a
-- selection, is denied as not selected and changes nothing.
pub operate-select :
    (contains : Key → Bool) (start now later : ℕ) (domain oper_item : Bytes) (value : MmsData)
    (selections : Selections) (store : Store)
    → contains (status_of domain oper_item) ≡ true
    → is_sbo (kind_at store domain oper_item) ≡ true
    → is_sbo
        (kind_at (put store (status_of domain oper_item) (oper_parts value).0) domain oper_item)
      ≡ true
    → now < start + sbo_timeout_of store domain (co_base_of oper_item)
    → blocked_at store domain oper_item value ≡ false
    → ((selected_then contains start now domain oper_item value selections store).result ≡ success)
      × ((selected_then contains start now domain oper_item value selections store).store
          ≡ put store (status_of domain oper_item) (oper_parts value).0)
      × (operate contains later domain oper_item value
            (selected_then contains start now domain oper_item value selections store).selections
            (selected_then contains start now domain oper_item value selections store).store
          ≡ refuse
              (remove
                (selected_then contains start now domain oper_item value selections
                  store).selections
                (object_of domain oper_item))
              (put store (status_of domain oper_item) (oper_parts value).0)
              object_not_selected)
unfolding select
operate-select contains start now later domain oper_item value selections store there sbo still
      in_time free =
    let key = object_of domain oper_item in
    let expires : ℕ = start + sbo_timeout_of store domain (co_base_of oper_item) in
    let chosen = put selections key expires in
    let granted : (select store start domain (co_base_of oper_item) selections).1 ≡ chosen =
      ap (λ (b : Bool). second (if b then (true, chosen) else (false, selections))) sbo in
    let done : Operated =
      execute (remove chosen key) store (kind_at store domain oper_item) false
        (status_of domain oper_item) (oper_parts value).0 in
    let e : selected_then contains start now domain oper_item value selections store ≡ done =
      ap (λ (s : Selections). operate contains now domain oper_item value s store) granted
      ∙ operate-selected contains now expires domain oper_item value chosen store there sbo
          (find-put selections key expires) in_time free in
    let (worked, written) =
      execute-free (remove chosen key) store (kind_at store domain oper_item)
        (status_of domain oper_item) (oper_parts value).0 in
    let emptied = execute-selections (remove chosen key) store _ _ _ _ in
    let missing : find done.selections key ≡ none =
      ap (λ (s : Selections). find s key) emptied ∙ find-remove chosen key in
    let store' = put store (status_of domain oper_item) (oper_parts value).0 in
    (
      ap (λ (o : Operated). o.result) e ∙ worked,
      ap (λ (o : Operated). o.store) e ∙ written,
      subst
          (λ (o : Operated).
            operate contains later domain oper_item value o.selections o.store
            ≡ refuse (remove o.selections key) store' object_not_selected)
          (sym e)
          (ap (λ (t : Store). operate contains later domain oper_item value done.selections t)
              written
            ∙ operate-unselected contains later domain oper_item value done.selections store' there
                still missing),
    )
