-- ===== src/Mms/Server/Buffer/Delivery.antt =====
-- crates/iec61850-mms/src/server.rs: what a connection is sent of the changes between two drains of a buffer.
use iec_61850_studio.Base.{
  ℕ, zero, suc, ◌+◌, ◌-◌, ◌%◌, ◌^◌, ◌≤◌, ◌<◌, max, List, [], ◌∷◌, ◌++◌, Bool, true, false, ltb, not,
  ◌||◌, length, drop, if◌then◌else◌, All, ◌≡◌, refl, sym, ap, ◌∙◌, arith, length-drop, drop-drop,
  subst, Bool-cases, inl, inr, drop-nil,
}
use mathlib.Core.Path.{ap₂}
use iec_61850_studio.Mms.Server.Buffer.{
  BufEntry, BrcbBuffer, RcbRuntime, BufferedReport, pending, send, some_left, drain_buffer,
}
use iec_61850_studio.Mms.Server.Buffer.Invariant.{
  Change, changed, numbered, RunFrom, RunFrom-append, RunFrom-drop, numbered-RunFrom,
  length-numbered, IsBuffer, changed-entries,
}

-- The entries of the reports, and their sequence numbers.
abbrev pub entries_of : List BufferedReport → List BufEntry
entries_of [] = []
entries_of (r ∷ rs) = r.entry ∷ entries_of rs

abbrev pub CountsFrom : ℕ → List BufferedReport → Type 0
CountsFrom k [] = Unit
CountsFrom k (r ∷ rs) = (r.seq_num ≡ k) × CountsFrom (suc k) rs

-- The entries behind the cursor of a list without gaps are its last ones.
pending-RunFrom :
    (cursor k : ℕ) (es : List BufEntry)
    → RunFrom k es
    → pending cursor es ≡ drop (suc cursor - k) es
unfolding pending
pending-RunFrom cursor k [] h = sym (drop-nil (suc cursor - k))
pending-RunFrom cursor k (e ∷ es) (he, h) = elim (Bool-cases (ltb cursor e.entry_id)) [
  | inl ahead ↦
      let now : suc cursor - k ≡ 0 = ground (arith, he) in
      let then' : suc cursor - suc k ≡ 0 = omega (arith, now) in
      rw (ahead, now)
        (ap (λ (t : List BufEntry). e ∷ t)
          (pending-RunFrom cursor (suc k) es h ∙ ap (λ (n : ℕ). drop n es) then'))
  | inr behind ↦
      let more : suc cursor - k ≡ suc (suc cursor - suc k) = ground (arith, he) in
      rw (behind, more) (pending-RunFrom cursor (suc k) es h)
]

-- What the loop over the pending entries sends while the sequence numbers last, and where it leaves the block.
send_lem :
    (overflow : Bool) (rcb : RcbRuntime) (es : List BufEntry)
    → rcb.seq_num + length es < 2 ^ 32
    → (entries_of (send overflow rcb es).1 ≡ es)
      × CountsFrom (rcb.seq_num + 1) (send overflow rcb es).1
      × All (λ r. r.overflow ≡ overflow) (send overflow rcb es).1
unfolding send
send_lem overflow rcb [] bound = (refl, tt, tt)
send_lem overflow rcb (e ∷ es) bound =
    let moved : RcbRuntime = record rcb {
      seq_num = (rcb.seq_num + 1) % 2 ^ 32;
      cursor = e.entry_id;
    } in
    let one : (rcb.seq_num + 1) % 2 ^ 32 ≡ rcb.seq_num + 1 = omega (arith, bound) in
    let (entries, counts, bits) = send_lem overflow moved es (omega (arith, bound, one)) in
    let next : (rcb.seq_num + 1) % 2 ^ 32 + 1 ≡ suc (rcb.seq_num + 1) = omega (arith, one) in
    (
      ap (λ (t : List BufEntry). e ∷ t) entries,
      (one, subst (λ n. CountsFrom n (send overflow moved es).1) next counts),
      (refl, bits),
    )

send-keeps :
    (overflow : Bool) (rcb : RcbRuntime) (es : List BufEntry)
    → ((send overflow rcb es).0.enabled ≡ rcb.enabled)
      × ((send overflow rcb es).0.buffered ≡ rcb.buffered)
unfolding send
send-keeps overflow rcb [] = (refl, refl)
send-keeps overflow rcb (e ∷ es) =
    send-keeps overflow (record rcb { seq_num = (rcb.seq_num + 1) % 2 ^ 32; cursor = e.entry_id })
      es

-- The cursor stands at the last entry that was sent.
send-cursor :
    (overflow : Bool) (rcb : RcbRuntime) (k : ℕ) (es : List BufEntry)
    → RunFrom k es
    → 1 ≤ length es
    → suc (send overflow rcb es).0.cursor ≡ k + length es
unfolding send
send-cursor overflow rcb k [] h some_sent = absurd (omega arith)
send-cursor overflow rcb k (e ∷ []) (he, _) some_sent = omega (arith, he)
send-cursor overflow rcb k (e ∷ f ∷ es) (he, h) some_sent = omega (
  arith,
  send-cursor overflow (record rcb { seq_num = (rcb.seq_num + 1) % 2 ^ 32; cursor = e.entry_id })
      (suc k) (f ∷ es) h (omega arith),
)

-- A block that is enabled and has been sent everything.
pub record IsCaughtUp (rcb : RcbRuntime) (buf : BrcbBuffer) : Type 0 where
  pub is_enabled : rcb.enabled ≡ true
  pub is_buffered : rcb.buffered ≡ true
  pub level : suc rcb.cursor ≡ buf.next_id

drop-past :
    (n : ℕ) (es fs : List BufEntry) → length es ≤ n → drop n (es ++ fs) ≡ drop (n - length es) fs
drop-past n [] fs h = ap (λ (k : ℕ). drop k fs) {x = n} {y = n - 0} (omega arith)
drop-past zero (e ∷ es) fs h = absurd (omega arith)
drop-past (suc n) (e ∷ es) fs h =
    drop-past n es fs (omega arith)
    ∙ ap (λ (k : ℕ). drop k fs) {x = n - length es} {y = suc n - suc (length es)} (omega arith)

-- The entries behind the cursor once changes came that do not exhaust the identifiers.
pending-changed :
    (rcb : RcbRuntime) (buf : BrcbBuffer) (cs : List Change)
    → IsBuffer buf
    → suc rcb.cursor ≡ buf.next_id
    → buf.next_id + length cs < 2 ^ 64
    → pending rcb.cursor (changed buf cs).entries
      ≡ drop (length cs - buf.capacity) (numbered buf.next_id cs)
pending-changed rcb buf cs h level bound =
    let es = buf.entries in
    let new = numbered buf.next_id cs in
    let d = length es + length cs - buf.capacity in
    let run : RunFrom h.first (es ++ new) =
      RunFrom-append h.first es new h.run
        (subst (λ k. RunFrom k new) h.next (numbered-RunFrom buf.next_id cs)) in
    let skipped : d + (suc rcb.cursor - (h.first + d)) ≡ max d (length es) =
      omega (arith, level, h.next) in
    let past : max d (length es) - length es ≡ length cs - buf.capacity = omega (arith, h.fits) in
    ap (pending rcb.cursor) (changed-entries buf cs h.fits bound).0
    ∙ pending-RunFrom rcb.cursor (h.first + d) (drop d (es ++ new))
        (RunFrom-drop d h.first (es ++ new) run)
    ∙ drop-drop d (suc rcb.cursor - (h.first + d)) (es ++ new)
    ∙ ap (λ (k : ℕ). drop k (es ++ new)) skipped
    ∙ drop-past (max d (length es)) es new (omega arith)
    ∙ ap (λ (k : ℕ). drop k new) past

-- The steps of a drain of an enabled block.
drain_enabled :
    (rcb : RcbRuntime) (buf : BrcbBuffer) (es : List BufEntry)
    → rcb.enabled ≡ true
    → rcb.buffered ≡ true
    → pending rcb.cursor buf.entries ≡ es
    → drain_buffer rcb buf ≡ (
      (
        (send buf.overflow rcb es).0,
        record buf { overflow = if some_left es then false else buf.overflow },
      ),
      (send buf.overflow rcb es).1,
    )
unfolding drain_buffer
drain_enabled rcb buf es is_enabled is_buffered e =
    let drained : List BufEntry → (RcbRuntime × BrcbBuffer) × List BufferedReport = λ es. (
      (
        (send buf.overflow rcb es).0,
        record buf { overflow = if some_left es then false else buf.overflow },
      ),
      (send buf.overflow rcb es).1,
    ) in
    let test : not rcb.enabled || not rcb.buffered ≡ false =
      ap₂ (λ (a b : Bool). not a || not b) is_enabled is_buffered in
    ap (λ (b : Bool). if b then ((rcb, buf), []) else drained (pending rcb.cursor buf.entries)) test
    ∙ ap drained e

-- Where the changes leave the cursor of a block that is sent the last ones.
sent-cursor :
    (overflow : Bool) (rcb : RcbRuntime) (next capacity : ℕ) (cs : List Change)
    → suc rcb.cursor ≡ next
    → 1 ≤ capacity
    → suc (send overflow rcb (drop (length cs - capacity) (numbered next cs))).0.cursor
      ≡ next + length cs
sent-cursor overflow rcb next capacity [] level room =
    ap (λ (t : List BufEntry). suc (send overflow rcb t).0.cursor) (drop-nil (0 - capacity))
    ∙ (unfold send in omega (arith, level))
sent-cursor overflow rcb next capacity (c ∷ cs) level room =
    let all = c ∷ cs in
    let d = length all - capacity in
    let sent = drop d (numbered next all) in
    let size : length sent ≡ length all - d =
      omega (arith, length-drop d (numbered next all), length-numbered next all) in
    omega (
      arith,
      size,
      send-cursor overflow rcb (next + d) sent
          (RunFrom-drop d next (numbered next all) (numbered-RunFrom next all))
          (omega (arith, size)),
    )

-- For changes that exhaust neither the 64 bits of the identifiers nor the 32 bits of the sequence numbers: an enabled block
-- that had been sent everything is sent, by the drain behind the changes, one report for each of the last changes
-- that the buffer has room for, in their order and with their identifiers, counted on without a gap; then it has
-- been sent everything again. Every report has the overflow bit exactly where the bit was set or the buffer
-- could not hold the entries it had, sent ones too, and the changes.
pub drain-changed :
    (rcb : RcbRuntime) (buf : BrcbBuffer) (cs : List Change)
    → IsBuffer buf
    → 1 ≤ buf.capacity
    → IsCaughtUp rcb buf
    → buf.next_id + length cs < 2 ^ 64
    → rcb.seq_num + length cs < 2 ^ 32
    → (entries_of (drain_buffer rcb (changed buf cs)).1
        ≡ drop (length cs - buf.capacity) (numbered buf.next_id cs))
      × CountsFrom (rcb.seq_num + 1) (drain_buffer rcb (changed buf cs)).1
      × All
          (λ r. r.overflow ≡ buf.overflow || ltb buf.capacity (length buf.entries + length cs))
          (drain_buffer rcb (changed buf cs)).1
      × IsCaughtUp (drain_buffer rcb (changed buf cs)).0.0 (drain_buffer rcb (changed buf cs)).0.1
drain-changed rcb buf cs h room caught ids numbers =
    let sent = drop (length cs - buf.capacity) (numbered buf.next_id cs) in
    let buf' = changed buf cs in
    let e =
      drain_enabled rcb buf' sent caught.is_enabled caught.is_buffered
        (pending-changed rcb buf cs h caught.level ids) in
    let size : length sent ≤ length cs = omega (
      arith,
      length-drop (length cs - buf.capacity) (numbered buf.next_id cs),
      length-numbered buf.next_id cs,
    ) in
    let (entries, counts, bits) = send_lem buf'.overflow rcb sent (omega (arith, size, numbers)) in
    let (is_enabled, is_buffered) = send-keeps buf'.overflow rcb sent in
    let (_, next, _, bit) = changed-entries buf cs h.fits ids in
    rw e (
      entries,
      counts,
      subst (λ b. All (λ r. r.overflow ≡ b) (send buf'.overflow rcb sent).1) bit bits,
      record {
        is_enabled = is_enabled ∙ caught.is_enabled;
        is_buffered = is_buffered ∙ caught.is_buffered;
        level =
            sent-cursor buf'.overflow rcb buf.next_id buf.capacity cs caught.level room ∙ sym next;
      },
    )
