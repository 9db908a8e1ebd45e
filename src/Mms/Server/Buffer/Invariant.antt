-- ===== src/Mms/Server/Buffer/Invariant.antt =====
-- crates/iec61850-mms/src/server.rs: what the buffer of a report control block keeps, whatever changes fill it.
use iec_61850_studio.Base.{
  ℕ, zero, suc, ◌+◌, ◌-◌, ◌%◌, ◌^◌, ◌≤◌, ◌<◌, List, [], ◌∷◌, ◌++◌, Bool, true, ltb, ◌||◌, length,
  drop, ◌≡◌, refl, sym, ap, ◌∙◌, arith, length-append, length-drop, drop-drop, append_assoc,
  append-nil, subst, Bool-cases, inl, inr, drop-nil,
}
use mathlib.Core.Path.{ap₂}
use iec_61850_studio.Ber.Data.{MmsData}
use iec_61850_studio.Mms.Server.Buffer.{BufEntry, BrcbBuffer, trim, buffer_change}

-- A change of a member of the data set, as it reaches the task.
abbrev pub Change : Type 0
Change = ℕ × MmsData

-- The buffer behind a sequence of changes.
abbrev pub changed : BrcbBuffer → List Change → BrcbBuffer
changed buf [] = buf
changed buf ((idx, value) ∷ cs) = changed (buffer_change idx value buf) cs

-- The entries of the changes, numbered from `k`.
abbrev pub numbered : ℕ → List Change → List BufEntry
numbered k [] = []
numbered k ((idx, value) ∷ cs) =
    record { entry_id = k; member_idx = idx; value = value } ∷ numbered (suc k) cs

-- The identifiers of a list run from `k` without gaps.
abbrev pub RunFrom : ℕ → List BufEntry → Type 0
RunFrom k [] = Unit
RunFrom k (e ∷ es) = (e.entry_id ≡ k) × RunFrom (suc k) es

pub record IsBuffer (buf : BrcbBuffer) : Type 0 where
  pub first : ℕ
  pub some_first : 1 ≤ first
  pub run : RunFrom first buf.entries
  pub next : buf.next_id ≡ first + length buf.entries
  pub fits : length buf.entries ≤ buf.capacity

pub RunFrom-append :
    (k : ℕ) (es fs : List BufEntry)
    → RunFrom k es
    → RunFrom (k + length es) fs
    → RunFrom k (es ++ fs)
RunFrom-append k [] fs h hf = let e : k + 0 ≡ k = omega arith in subst (λ n. RunFrom n fs) e hf
RunFrom-append k (e ∷ es) fs (he, h) hf =
    let same : k + suc (length es) ≡ suc k + length es = omega arith in
    (he, RunFrom-append (suc k) es fs h (subst (λ n. RunFrom n fs) same hf))

pub RunFrom-drop : (n k : ℕ) (es : List BufEntry) → RunFrom k es → RunFrom (k + n) (drop n es)
RunFrom-drop zero k es h = let e : k ≡ k + 0 = omega arith in subst (λ n. RunFrom n es) e h
RunFrom-drop (suc n) k [] h = tt
RunFrom-drop (suc n) k (e ∷ es) (_, h) =
    let same : suc k + n ≡ k + suc n = omega arith in
    subst (λ m. RunFrom m (drop n es)) same (RunFrom-drop n (suc k) es h)

pub numbered-RunFrom : (k : ℕ) (cs : List Change) → RunFrom k (numbered k cs)
numbered-RunFrom k [] = tt
numbered-RunFrom k ((idx, value) ∷ cs) = (refl, numbered-RunFrom (suc k) cs)

pub length-numbered : (k : ℕ) (cs : List Change) → length (numbered k cs) ≡ length cs
length-numbered k [] = refl
length-numbered k ((idx, value) ∷ cs) = ap suc (length-numbered (suc k) cs)

-- The loop keeps the last entries, as many as there is room for.
trim_lem :
    (capacity : ℕ) (es : List BufEntry) (overflow : Bool)
    → trim capacity es overflow
      ≡ (drop (length es - capacity) es, overflow || ltb capacity (length es))
unfolding trim
trim_lem capacity [] overflow =
    ap₂ (λ (es : List BufEntry) (b : Bool). (es, b)) (sym (drop-nil (0 - capacity))) (ground arith)
trim_lem capacity (e ∷ es) overflow = elim (Bool-cases (ltb capacity (suc (length es)))) [
  | inl over ↦
      let left : suc (length es) - capacity ≡ suc (length es - capacity) = ground (arith, over) in
      rw (over, left)
        (trim_lem capacity es true
          ∙ ap (λ (b : Bool). (drop (length es - capacity) es, b)) (ground arith))
  | inr under ↦
      let left : suc (length es) - capacity ≡ 0 = ground (arith, under) in
      rw (under, left) (ap (λ (b : Bool). (e ∷ es, b)) (ground arith))
]

drop-append_le :
    (n : ℕ) (es fs : List BufEntry) → n ≤ length es → drop n es ++ fs ≡ drop n (es ++ fs)
drop-append_le zero es fs h = refl
drop-append_le (suc n) [] fs h = absurd (omega arith)
drop-append_le (suc n) (e ∷ es) fs h = drop-append_le n es fs (omega arith)

-- One change in front of others, on the entries and on the bit.
glue :
    (capacity n : ℕ) (es : List BufEntry) (e : BufEntry) (others : List BufEntry)
    → drop
        (length (drop (length (es ++ e ∷ []) - capacity) (es ++ e ∷ [])) + n - capacity)
        (drop (length (es ++ e ∷ []) - capacity) (es ++ e ∷ []) ++ others)
      ≡ drop (length es + suc n - capacity) (es ++ e ∷ others)
glue capacity n es e others =
    let more = es ++ e ∷ [] in
    let d = length more - capacity in
    let dropped : d + (length (drop d more) + n - capacity) ≡ length es + suc n - capacity =
      omega (arith, length-append es (e ∷ []), length-drop d more) in
    ap (drop (length (drop d more) + n - capacity)) (drop-append_le d more others (omega arith))
    ∙ drop-drop d (length (drop d more) + n - capacity) (more ++ others)
    ∙ ap₂ (λ (k : ℕ) (t : List BufEntry). drop k t) dropped (append_assoc es (e ∷ []) others)

glue_bit :
    (capacity n : ℕ) (es : List BufEntry) (e : BufEntry) (overflow : Bool)
    → (overflow || ltb capacity (length (es ++ e ∷ [])))
        || ltb capacity (length (drop (length (es ++ e ∷ []) - capacity) (es ++ e ∷ [])) + n)
      ≡ overflow || ltb capacity (length es + suc n)
glue_bit capacity n es e overflow = ground (
  arith,
  length-append es (e ∷ []),
  length-drop (length (es ++ e ∷ []) - capacity) (es ++ e ∷ []),
)

-- Behind changes that do not exhaust the identifiers the buffer has the last entries of those that it had and those of the changes.
pub changed-entries :
    (buf : BrcbBuffer) (cs : List Change)
    → length buf.entries ≤ buf.capacity
    → buf.next_id + length cs < 2 ^ 64
    → ((changed buf cs).entries
        ≡ drop
            (length buf.entries + length cs - buf.capacity)
            (buf.entries ++ numbered buf.next_id cs))
      × ((changed buf cs).next_id ≡ buf.next_id + length cs)
      × ((changed buf cs).capacity ≡ buf.capacity)
      × ((changed buf cs).overflow
          ≡ buf.overflow || ltb buf.capacity (length buf.entries + length cs))
unfolding buffer_change
changed-entries buf [] h bound =
    let none_over : length buf.entries + 0 - buf.capacity ≡ 0 = omega arith in
    (rw none_over (sym (append-nil buf.entries)), omega arith, refl, ground arith)
changed-entries buf ((idx, value) ∷ cs) h bound =
    let e : BufEntry = record { entry_id = buf.next_id; member_idx = idx; value = value } in
    let es = buf.entries in
    let trimmed = trim_lem buf.capacity (es ++ e ∷ []) buf.overflow in
    let small : length (trim buf.capacity (es ++ e ∷ []) buf.overflow).0 ≤ buf.capacity = omega (
      arith,
      ap (λ (r : List BufEntry × Bool). length r.0) trimmed,
      length-drop (length (es ++ e ∷ []) - buf.capacity) (es ++ e ∷ []),
    ) in
    let same : (buf.next_id + 1) % 2 ^ 64 ≡ suc buf.next_id = omega (arith, bound) in
    let (entries, next, capacity, bit) =
      changed-entries (buffer_change idx value buf) cs small (omega (arith, bound, same)) in
    (
      entries
          ∙ ap
              (λ (r : List BufEntry × Bool).
                drop (length r.0 + length cs - buf.capacity)
                  (r.0 ++ numbered ((buf.next_id + 1) % 2 ^ 64) cs))
              trimmed
          ∙ ap
              (λ (k : ℕ).
                drop
                  (length (drop (length (es ++ e ∷ []) - buf.capacity) (es ++ e ∷ []))
                    + length cs
                    - buf.capacity)
                  (drop (length (es ++ e ∷ []) - buf.capacity) (es ++ e ∷ []) ++ numbered k cs))
              same
          ∙ glue buf.capacity (length cs) es e (numbered (suc buf.next_id) cs),
      next ∙ omega (arith, same),
      capacity,
      bit
          ∙ ap (λ (r : List BufEntry × Bool). r.1 || ltb buf.capacity (length r.0 + length cs))
              trimmed
          ∙ glue_bit buf.capacity (length cs) es e buf.overflow,
    )

-- From any buffer that is well formed, any sequence of changes that does not exhaust the 64 bits of the identifiers leaves
-- one that is: it has at most as many entries as there is room for, and their identifiers are consecutive
-- numbers up to the next one.
pub changed-IsBuffer :
    (buf : BrcbBuffer) (cs : List Change)
    → IsBuffer buf
    → buf.next_id + length cs < 2 ^ 64
    → IsBuffer (changed buf cs)
changed-IsBuffer buf cs h bound =
    let (entries, next, capacity, _) = changed-entries buf cs h.fits bound in
    let d = length buf.entries + length cs - buf.capacity in
    let all = buf.entries ++ numbered buf.next_id cs in
    let run : RunFrom h.first all =
      RunFrom-append h.first buf.entries (numbered buf.next_id cs) h.run (
        subst (λ k. RunFrom k (numbered buf.next_id cs)) h.next
          (numbered-RunFrom buf.next_id cs)) in
    let size : length (changed buf cs).entries ≡ length buf.entries + length cs - d = omega (
      arith,
      ap length entries,
      length-drop d all,
      length-append buf.entries (numbered buf.next_id cs),
      length-numbered buf.next_id cs,
    ) in
    record {
      first = h.first + d;
      some_first = omega (arith, h.some_first);
      run = subst (RunFrom (h.first + d)) (sym entries) (RunFrom-drop d h.first all run);
      next = omega (arith, next, h.next, h.fits, size);
      fits = omega (arith, capacity, size, h.fits);
    }
