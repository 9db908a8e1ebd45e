-- ===== src/Mms/Server/Reservation/Exclusive.antt =====
-- crates/iec61850-mms/src/server.rs: a reservation keeps the other connections out, while its owner lives and for the
-- time that it asked for afterwards.
use iec_61850_studio.Base.{
  ℕ, ◌+◌, ◌*◌, ◌≤◌, List, [], ◌∷◌, Option, none, some, Bool, true, false, ltb, ◌==◌, ==_iff, not,
  ◌&&◌, if◌then◌else◌, bytes_eq, ◌≡◌, ◌≢◌, inl, inr, refl, sym, ap, ◌∙◌, arith, Bool-cases, All,
  subst,
}
use mathlib.Core.Path.{ap₂}
use iec_61850_studio.Base.Words.{Bytes}
use iec_61850_studio.Base.Strings.{rsplit_once}
use iec_61850_studio.Base.PairMaps.{
  Key, key_eq, key_eq-same, find, find-put_other, find-remove_other,
}
use iec_61850_studio.Ber.Data.{MmsData}
use iec_61850_studio.Mms.Server.Reservation.{
  Reservation, Reservations, holds, resv_attr, resv_tms_attr, rpt_ena_attr, is_true, seconds_of,
  not_over, held_by_other, is_mine, update, check_block, check_split, check_rcb_reservation,
  release,
}

-- A choice between two maps with the same entry.
find-either :
    (b : Bool) (x y : Reservations) (key : Key) {o : Option Reservation}
    → find x key ≡ o
    → find y key ≡ o
    → find (if b then x else y) key ≡ o
find-either true x y key hx hy = hx
find-either false x y key hx hy = hy

-- Another block is not touched.
update-other :
    (conn_id : ℕ) (key other : Key) (attr : Bytes) (value : MmsData) (g : Reservations)
    → key_eq key other ≡ false
    → find (update conn_id key attr value g) other ≡ find g other
unfolding update
update-other conn_id key other attr value g differs =
    let put_keeps = λ (r : Reservation). find-put_other g key other r differs in
    let remove_keeps = find-remove_other g key other differs in
    find-either (bytes_eq attr resv_attr) _ _ other
      (find-either (is_true value) _ _ other (put_keeps _) remove_keeps)
      (find-either (bytes_eq attr resv_tms_attr) _ _ other
        (find-either (ltb 0 (seconds_of value)) _ _ other (put_keeps _) remove_keeps)
        (find-either (bytes_eq attr rpt_ena_attr && is_true value) _ _ other
          (find-either (is_mine conn_id (find g key)) _ _ other refl (put_keeps _)) refl))

-- Another connection is kept out of a block that is held.
check_block-held :
    (conn_id now : ℕ) (key : Key) (attr : Bytes) (value : MmsData) (g : Reservations)
    (r : Reservation)
    → find g key ≡ some r
    → r.conn_id ≢ conn_id
    → holds r now ≡ true
    → check_block conn_id now key attr value g ≡ (true, g)
unfolding check_block
check_block-held conn_id now key attr value g r h other held =
    let differs : (r.conn_id == conn_id) ≡ false = ground (arith, other) in
    let kept_out : held_by_other conn_id now (find g key) ≡ true =
      ap (held_by_other conn_id now) h ∙ ap₂ (λ (a b : Bool). not a && b) differs held in
    ap (λ (b : Bool). if b then (true, g) else (false, update conn_id key attr value g)) kept_out

check_block-other :
    (conn_id now : ℕ) (key other : Key) (attr : Bytes) (value : MmsData) (g : Reservations)
    → key_eq key other ≡ false
    → find (check_block conn_id now key attr value g).1 other ≡ find g other
unfolding check_block
check_block-other conn_id now key other attr value g differs =
    elim (Bool-cases (held_by_other conn_id now (find g key))) [
      | inl e ↦ rw e refl
      | inr e ↦ rw e (update-other conn_id key other attr value g differs)
    ]

-- A write of one connection leaves alone what another one holds.
check_block-keeps :
    (conn_id now : ℕ) (block : Key) (attr : Bytes) (value : MmsData) (g : Reservations) (key : Key)
    (r : Reservation)
    → find g key ≡ some r
    → r.conn_id ≢ conn_id
    → holds r now ≡ true
    → find (check_block conn_id now block attr value g).1 key ≡ some r
check_block-keeps conn_id now block attr value g key r h other held =
    elim (Bool-cases (key_eq block key)) [
      | inl same ↦
          let h' : find g block ≡ some r = ap (find g) (key_eq-same block key same) ∙ h in
          ap (λ (x : Bool × Reservations). find x.1 key)
            (check_block-held conn_id now block attr value g r h' other held)
          ∙ h
      | inr differs ↦ check_block-other conn_id now block key attr value g differs ∙ h
    ]

check_split-keeps :
    (is_rcb : Key → Bool) (conn_id now : ℕ) (domain : Bytes) (split : Option (Bytes × Bytes))
    (value : MmsData) (g : Reservations) (key : Key) (r : Reservation)
    → find g key ≡ some r
    → r.conn_id ≢ conn_id
    → holds r now ≡ true
    → find (check_split is_rcb conn_id now domain split value g).1 key ≡ some r
check_split-keeps is_rcb conn_id now domain none value g key r h other held = h
check_split-keeps is_rcb conn_id now domain (some (base, attr)) value g key r h other held =
    elim (Bool-cases (is_rcb (domain, base))) [
      | inl e ↦ rw e (check_block-keeps conn_id now (domain, base) attr value g key r h other held)
      | inr e ↦ rw e h
    ]

find-head :
    (k : Key) (q : Reservation) (g : Reservations) (key : Key)
    → key_eq k key ≡ true
    → find ((k, q) ∷ g) key ≡ some q
unfolding find
find-head k q g key e = rw e refl

find-tail :
    (k : Key) (q : Reservation) (g : Reservations) (key : Key)
    → key_eq k key ≡ false
    → find ((k, q) ∷ g) key ≡ find g key
unfolding find
find-tail k q g key e = rw e refl

release-keeps :
    (conn_id now : ℕ) (g : Reservations) (key : Key) (r : Reservation)
    → find g key ≡ some r
    → r.conn_id ≢ conn_id
    → find (release conn_id now g) key ≡ some r
unfolding release
release-keeps conn_id now [] key r h other = h
release-keeps conn_id now ((k, q) ∷ g) key r h other = elim (Bool-cases (key_eq k key)) [
  | inl same ↦
      let is_r : some q ≡ some r = sym (find-head k q g key same) ∙ h in
      let not_mine : (q.conn_id == conn_id) ≡ false =
        ap (is_mine conn_id) is_r ∙ ground (arith, other) in
      let rest = release conn_id now g in
      let later : Reservation = record q { until = some (now + q.resv_secs * 1000000000) } in
      ap
        (λ (b : Bool).
          find
            (if not b then (k, q) ∷ rest else if ltb 0 q.resv_secs then (k, later) ∷ rest else rest)
            key)
        not_mine
      ∙ find-head k q rest key same
      ∙ is_r
  | inr differs ↦
      let rest = release-keeps conn_id now g key r (sym (find-tail k q g key differs) ∙ h) other in
      find-either (not (q.conn_id == conn_id)) _ _ key (find-tail k q _ key differs ∙ rest)
        (find-either (ltb 0 q.resv_secs) _ _ key (find-tail k _ _ key differs ∙ rest) rest)
]

-- What the connections do to the reservations.
pub data Event : Type 0 where
  wrote : ℕ → ℕ → Bytes → Bytes → MmsData → Event
  ended : ℕ → ℕ → Event

abbrev pub author : Event → ℕ
author (wrote conn_id now domain item value) = conn_id
author (ended conn_id now) = conn_id

abbrev pub step : (Key → Bool) → Reservations → Event → Reservations
step is_rcb g (wrote conn_id now domain item value) =
    (check_rcb_reservation is_rcb conn_id now domain item value g).1
step is_rcb g (ended conn_id now) = release conn_id now g

abbrev pub run : (Key → Bool) → Reservations → List Event → Reservations
run is_rcb g [] = g
run is_rcb g (e ∷ events) = run is_rcb (step is_rcb g e) events

step-keeps :
    (is_rcb : Key → Bool) (g : Reservations) (e : Event) (key : Key) (r : Reservation)
    → find g key ≡ some r
    → r.until ≡ none
    → r.conn_id ≢ author e
    → find (step is_rcb g e) key ≡ some r
unfolding check_rcb_reservation holds
step-keeps is_rcb g (wrote conn_id now domain item value) key r h living other =
    check_split-keeps is_rcb conn_id now domain (rsplit_once 36 item) value g key r h other
      (ap (λ (u : Option ℕ). not_over u now) living)
step-keeps is_rcb g (ended conn_id now) key r h living other =
    release-keeps conn_id now g key r h other

run-keeps :
    (is_rcb : Key → Bool) (g : Reservations) (events : List Event) (key : Key) (r : Reservation)
    → find g key ≡ some r
    → r.until ≡ none
    → All (λ e. r.conn_id ≢ author e) events
    → find (run is_rcb g events) key ≡ some r
run-keeps is_rcb g [] key r h living others = h
run-keeps is_rcb g (e ∷ events) key r h living (other, others) =
    run-keeps is_rcb (step is_rcb g e) events key r (step-keeps is_rcb g e key r h living other)
      living others

-- While the connection that holds a block lives, whatever the other connections write and however they end, the
-- reservation stays as it is, and a write of another connection to any attribute of the block is refused and
-- changes nothing.
pub check_rcb_reservation-run :
    (is_rcb : Key → Bool) (g : Reservations) (events : List Event) (r : Reservation)
    (conn_id now : ℕ) (domain item base attr : Bytes) (value : MmsData)
    → find g (domain, base) ≡ some r
    → r.until ≡ none
    → All (λ e. r.conn_id ≢ author e) events
    → r.conn_id ≢ conn_id
    → rsplit_once 36 item ≡ some (base, attr)
    → is_rcb (domain, base) ≡ true
    → (find (run is_rcb g events) (domain, base) ≡ some r)
      × (check_rcb_reservation is_rcb conn_id now domain item value (run is_rcb g events)
          ≡ (true, run is_rcb g events))
unfolding check_rcb_reservation holds
check_rcb_reservation-run is_rcb g events r conn_id now domain item base attr value h living others
      other split known =
    let g' = run is_rcb g events in
    let kept = run-keeps is_rcb g events (domain, base) r h living others in
    (
      kept,
      ap (λ o. check_split is_rcb conn_id now domain o value g') split
          ∙ ap
              (λ (b : Bool).
                if b then check_block conn_id now (domain, base) attr value g' else (false, g'))
              known
          ∙ check_block-held conn_id now (domain, base) attr value g' r kept other
              (ap (λ (u : Option ℕ). not_over u now) living),
    )

abbrev or_else : Reservation → Option Reservation → Reservation
or_else q none = q
or_else q (some r) = r

-- The entry of the one that ended, in front.
release-own :
    (now : ℕ) (k : Key) (q : Reservation) (g : Reservations) (key : Key)
    → key_eq k key ≡ true
    → 1 ≤ q.resv_secs
    → find (release q.conn_id now ((k, q) ∷ g)) key
      ≡ some (record q { until = some (now + q.resv_secs * 1000000000) })
unfolding release
release-own now k q g key same asked =
    let rest = release q.conn_id now g in
    let later : Reservation = record q { until = some (now + q.resv_secs * 1000000000) } in
    let mine : (q.conn_id == q.conn_id) ≡ true = (==_iff q.conn_id q.conn_id).1 refl in
    let timed : ltb 0 q.resv_secs ≡ true = ground (arith, asked) in
    ap
      (λ (b : Bool).
        find
          (if not b then (k, q) ∷ rest else if ltb 0 q.resv_secs then (k, later) ∷ rest else rest)
          key)
      mine
    ∙ ap (λ (b : Bool). find (if b then (k, later) ∷ rest else rest) key) timed
    ∙ find-head k later rest key same

-- The reservation of a connection that ended, where it asked for a time.
release-window :
    (now : ℕ) (g : Reservations) (key : Key) (r : Reservation)
    → find g key ≡ some r
    → 1 ≤ r.resv_secs
    → find (release r.conn_id now g) key
      ≡ some (record r { until = some (now + r.resv_secs * 1000000000) })
unfolding release
release-window now [] key r h asked = unfold find in cc
release-window now ((k, q) ∷ g) key r h asked = elim (Bool-cases (key_eq k key)) [
  | inl same ↦
      let is_r : q ≡ r = ap (or_else q) (sym (find-head k q g key same) ∙ h) in
      subst
        (λ (t : Reservation).
          find (release t.conn_id now ((k, q) ∷ g)) key
          ≡ some (record t { until = some (now + t.resv_secs * 1000000000) }))
        is_r
        (release-own now k q g key same
          (subst (λ (t : Reservation). 1 ≤ t.resv_secs) (sym is_r) asked))
  | inr differs ↦
      let rest = release-window now g key r (sym (find-tail k q g key differs) ∙ h) asked in
      find-either (not (q.conn_id == r.conn_id)) _ _ key (find-tail k q _ key differs ∙ rest)
        (find-either (ltb 0 q.resv_secs) _ _ key (find-tail k _ _ key differs ∙ rest) rest)
]

abbrev pub refused : Bool × Reservations → Bool
refused (b, g) = b

refused-if : (b : Bool) (x y : Reservations) → refused (if b then (true, x) else (false, y)) ≡ b
refused-if true x y = refl
refused-if false x y = refl

-- Behind the end of its owner at `now`, a block for which the owner asked `resv_secs` seconds refuses the write of
-- another connection exactly as long as those seconds last.
pub check_rcb_reservation-release :
    (is_rcb : Key → Bool) (g : Reservations) (r : Reservation) (conn_id now later : ℕ)
    (domain item base attr : Bytes) (value : MmsData)
    → find g (domain, base) ≡ some r
    → 1 ≤ r.resv_secs
    → r.conn_id ≢ conn_id
    → rsplit_once 36 item ≡ some (base, attr)
    → is_rcb (domain, base) ≡ true
    → refused
        (check_rcb_reservation is_rcb conn_id later domain item value (release r.conn_id now g))
      ≡ ltb later (now + r.resv_secs * 1000000000)
unfolding check_rcb_reservation check_block holds
check_rcb_reservation-release is_rcb g r conn_id now later domain item base attr value h asked other
      split known =
    let g' = release r.conn_id now g in
    let kept = release-window now g (domain, base) r h asked in
    let differs : (r.conn_id == conn_id) ≡ false = ground (arith, other) in
    let until : ℕ = now + r.resv_secs * 1000000000 in
    let free = update conn_id (domain, base) attr value g' in
    ap (λ o. refused (check_split is_rcb conn_id later domain o value g')) split
    ∙ ap
        (λ (b : Bool).
          refused
            (if b then check_block conn_id later (domain, base) attr value g' else (false, g')))
        known
    ∙ ap
        (λ (o : Option Reservation).
          refused (if held_by_other conn_id later o then (true, g') else (false, free)))
        kept
    ∙ ap (λ (b : Bool). refused (if not b && ltb later until then (true, g') else (false, free)))
        differs
    ∙ refused-if (ltb later until) g' free
