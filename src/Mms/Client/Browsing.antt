-- ===== src/Mms/Client/Browsing.antt =====
-- What `get_name_list_all` collects from a server that answers with the pages of a sorted list: the list.
use iec_61850_studio.Base.{
  ℕ, zero, suc, ◌≤◌, ◌<◌, List, [], ◌∷◌, ◌++◌, Option, none, some, length, take, drop, All, ltb,
  ◌≡◌, refl, sym, ap, ◌∙◌, subst, arith, length-drop, append_assoc, take-append-drop, take-of_le,
  ltb-true, ltb-false, dec_lt,
}
use iec_61850_studio.Base.Result.{ok}
use iec_61850_studio.Base.Words.{Bytes}
use iec_61850_studio.Transport.Error.{MmsResult}
use iec_61850_studio.Mms.NameList.{
  ObjectClass, ObjectScope, GetNameListRequest, GetNameListResponse,
}
use iec_61850_studio.Mms.Server.Namespace.{start_after, page_of}
use iec_61850_studio.Mms.Server.Namespace.Paging.{
  All-middle, IsSorted, IsBehind, start_after-IsBehind, page_of-others,
}
use iec_61850_studio.Mms.Client.{after_page, last, name_list_loop, get_name_list_all}

last_lem :
    (xs : List Bytes) (l : Bytes) → last xs ≡ some l → (front : List Bytes) × (xs ≡ front ++ l ∷ [])
unfolding last
last_lem [] l e = absurd (ground (arith, e))
last_lem (x ∷ []) l e = ([], ground (arith, e))
last_lem (x ∷ y ∷ ys) l e =
    let (front, same) = last_lem (y ∷ ys) l e in (x ∷ front, ap (λ (t : List Bytes). x ∷ t) same)

last_some : (x : Bytes) (xs : List Bytes) → (l : Bytes) × (last (x ∷ xs) ≡ some l)
unfolding last
last_some x [] = (x, refl)
last_some x (y ∷ ys) = last_some y ys

last-take :
    (n : ℕ) (xs : List Bytes) → 1 ≤ n → 0 < length xs → (l : Bytes) × (last (take n xs) ≡ some l)
last-take zero xs h some_names = absurd (omega arith)
last-take (suc n) [] h some_names = absurd (omega arith)
last-take (suc n) (x ∷ xs) h some_names = last_some x (take n xs)

-- A server that gives the page behind the cursor, for the cursors in question.
abbrev pub Answers :
    (Option Bytes → Type 0)
    → (GetNameListRequest → MmsResult GetNameListResponse)
    → ObjectClass
    → ObjectScope
    → ℕ
    → List Bytes
    → Type 0
Answers P ask class scope size source =
    (cursor : Option Bytes)
    → P cursor
    → ask (record { class = class; scope = scope; continue_after = cursor })
      ≡ ok (page_of size source (start_after source cursor))

module _ (P : Option Bytes → Type 0) (ask : GetNameListRequest → MmsResult GetNameListResponse)
    (class : ObjectClass) (scope : ObjectScope) (size : ℕ) (source : List Bytes)
    (answers : Answers P ask class scope size source) (sorted : IsSorted source)
    (positive : 1 ≤ size) (names : All (λ x. P (some x)) source) where
  -- The answer behind the names that were listed.
  ask-others :
      (cursor : Option Bytes) (listed others : List Bytes)
      → P cursor
      → IsBehind cursor listed
      → source ≡ listed ++ others
      → ask (record { class = class; scope = scope; continue_after = cursor })
        ≡ ok (record { identifiers = take size others; more_follows = ltb size (length others) })
  ask-others cursor listed others p behind e =
      let start : start_after source cursor ≡ length listed =
        ap (λ (t : List Bytes). start_after t cursor) e
        ∙ start_after-IsBehind cursor listed others behind (subst IsSorted e sorted) in
      answers cursor p
      ∙ ap (λ (k : ℕ). ok (page_of size source k)) start
      ∙ ap (λ (t : List Bytes). ok (page_of size t (length listed))) e
      ∙ ap ok (page_of-others size listed others)

  collects :
      (n : ℕ) (cursor : Option Bytes) (listed others out : List Bytes)
      → P cursor
      → IsBehind cursor listed
      → source ≡ listed ++ others
      → length others < n
      → name_list_loop ask class scope n cursor out ≡ ok (out ++ others)
  unfolding name_list_loop
  collects zero cursor listed others out p behind e enough = elim enough [ ]
  collects (suc n) cursor listed others out p behind e enough = elim (dec_lt size (length others)) [
    | no h ↦
        rw
          (
            ask-others cursor listed others p behind e,
            ltb-false size (length others) (omega arith),
            take-of_le size others (omega arith),
          )
          refl
    | yes h ↦
        let page : List Bytes = take size others in
        let left : List Bytes = drop size others in
        let parts : page ++ left ≡ others = take-append-drop size others in
        let (l, is_last) = last-take size others positive (omega arith) in
        let (front, page_lem) = last_lem page l is_last in
        let behind' : IsBehind (some l) (listed ++ page) = (
          listed ++ front,
          ap (λ (t : List Bytes). listed ++ t) page_lem ∙ sym (append_assoc listed front (l ∷ [])),
        ) in
        let e' : source ≡ (listed ++ page) ++ left =
          e
          ∙ ap (λ (t : List Bytes). listed ++ t) (sym parts)
          ∙ sym (append_assoc listed page left) in
        let shorter : length left < n = omega (arith, length-drop size others) in
        let whole : source ≡ (listed ++ front) ++ l ∷ left =
          e'
          ∙ ap (λ (t : List Bytes). t ++ left) (behind'.1)
          ∙ append_assoc (listed ++ front) (l ∷ []) left in
        let p' : P (some l) =
          All-middle (λ x. P (some x)) (listed ++ front) l left
            (subst (All (λ x. P (some x))) whole names) in
        rw (ask-others cursor listed others p behind e, ltb-true size (length others) h)
          (ap
              (λ (o : Option Bytes).
                after_page o (out ++ page)
                  (λ l. name_list_loop ask class scope n (some l) (out ++ page)))
              is_last
            ∙ collects n (some l) (listed ++ page) left (out ++ page) p' behind' e' shorter
            ∙ ap ok (append_assoc out page left ∙ ap (λ (t : List Bytes). out ++ t) parts))
  ]

-- A server that answers each request, without cursor or behind one of its names, with the page behind the cursor, of a sorted
-- list of names and in pages of one name at least: with a round for each name and one more, `get_name_list_all` returns
-- the list.
pub get_name_list_all-pages :
    (P : Option Bytes → Type 0) (ask : GetNameListRequest → MmsResult GetNameListResponse)
    (class : ObjectClass) (scope : ObjectScope) (size : ℕ) (source : List Bytes) (rounds : ℕ)
    → Answers P ask class scope size source
    → P none
    → All (λ x. P (some x)) source
    → IsSorted source
    → 1 ≤ size
    → length source < rounds
    → get_name_list_all ask rounds class scope ≡ ok source
unfolding get_name_list_all
get_name_list_all-pages P ask class scope size source rounds answers start names sorted positive
      enough =
    collects P ask class scope size source answers sorted positive names rounds none [] source []
      start refl refl enough
