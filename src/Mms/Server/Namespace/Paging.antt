-- ===== src/Mms/Server/Namespace/Paging.antt =====
-- Pages of a sorted list of names: behind a name that was listed comes the next one.
use iec_61850_studio.Base.{
  ℕ, suc, ◌+◌, ◌-◌, min, List, [], ◌∷◌, ◌++◌, Option, none, some, Bool, true, false, length, take,
  ltb, All, ◌≡◌, refl, sym, ap, ◌∙◌, subst, arith, length-append, append_assoc, drop_front,
  take-of_le, ltb-true, ltb-false, dec_lt,
}
use mathlib.Core.Path.{ap₂}
use iec_61850_studio.Base.Words.{Bytes}
use iec_61850_studio.Mms.Server.Namespace.{text_le, partition_point, start_after, page_of}

abbrev pub Below : Bytes → Bytes → Type 0
Below x y = (text_le x y ≡ true) × (text_le y x ≡ false)

-- Sorted, each name once: what `sort` and `dedup` leave.
abbrev pub IsSorted : List Bytes → Type 0
IsSorted [] = Unit
IsSorted (x ∷ xs) = All (Below x) xs × IsSorted xs

text_le_refl : (a : Bytes) → text_le a a ≡ true
unfolding text_le
text_le_refl [] = refl
text_le_refl (x ∷ a) = ground (arith, text_le_refl a)

pub All-middle :
    (P : Bytes → Type 0) (xs : List Bytes) (y : Bytes) (ys : List Bytes)
    → All P (xs ++ y ∷ ys)
    → P y
All-middle P [] y ys (h, _) = h
All-middle P (x ∷ xs) y ys (_, h) = All-middle P xs y ys h

partition_point-behind :
    (ca : Bytes) (ys : List Bytes) → All (Below ca) ys → partition_point (λ x. text_le x ca) ys ≡ 0
unfolding partition_point
partition_point-behind ca [] h = refl
partition_point-behind ca (y ∷ ys) ((_, above), _) = rw above refl

partition_point-sorted :
    (listed : List Bytes) (ca : Bytes) (ys : List Bytes)
    → IsSorted (listed ++ ca ∷ ys)
    → partition_point (λ x. text_le x ca) (listed ++ ca ∷ ys) ≡ suc (length listed)
unfolding partition_point
partition_point-sorted [] ca ys (above, _) =
    rw (text_le_refl ca, partition_point-behind ca ys above) refl
partition_point-sorted (x ∷ listed) ca ys (below, h) =
    let (le, _) = All-middle (Below x) listed ca ys below in
    rw (le, partition_point-sorted listed ca ys h) refl

-- The names that a cursor stands behind.
abbrev pub IsBehind : Option Bytes → List Bytes → Type 0
IsBehind none listed = listed ≡ []
IsBehind (some ca) listed = (front : List Bytes) × (listed ≡ front ++ ca ∷ [])

pub start_after-IsBehind :
    (cursor : Option Bytes) (listed others : List Bytes)
    → IsBehind cursor listed
    → IsSorted (listed ++ others)
    → start_after (listed ++ others) cursor ≡ length listed
start_after-IsBehind none listed others h sorted = ap length (sym h)
start_after-IsBehind (some ca) listed others (front, e) sorted =
    let whole : listed ++ others ≡ front ++ ca ∷ others =
      ap (λ (t : List Bytes). t ++ others) e ∙ append_assoc front (ca ∷ []) others in
    let sorted' : IsSorted (front ++ ca ∷ others) = subst IsSorted whole sorted in
    ap (partition_point (λ x. text_le x ca)) whole
    ∙ partition_point-sorted front ca others sorted'
    ∙ omega (arith, ap length e, length-append front (ca ∷ []))

take-min : (n : ℕ) (xs : List Bytes) → take (min n (length xs)) xs ≡ take n xs
take-min n xs = elim (dec_lt n (length xs)) [
  | yes h ↦ let e : min n (length xs) ≡ n = omega arith in ap (λ (k : ℕ). take k xs) e
  | no h ↦
      let e : min n (length xs) ≡ length xs = omega arith in
      ap (λ (k : ℕ). take k xs) e
      ∙ take-of_le (length xs) xs (omega arith)
      ∙ sym (take-of_le n xs (omega arith))
]

-- The page behind the names that were listed.
pub page_of-others :
    (size : ℕ) (listed others : List Bytes)
    → page_of size (listed ++ others) (length listed)
      ≡ record { identifiers = take size others; more_follows = ltb size (length others) }
page_of-others size listed others =
    let whole : ℕ = length (listed ++ others) in
    let end : ℕ = min (length listed + size) whole in
    let sizes = length-append listed others in
    let width : end - length listed ≡ min size (length others) = omega (arith, sizes) in
    let more : ltb end whole ≡ ltb size (length others) = elim (dec_lt size (length others)) [
      | yes h ↦ ltb-true end whole (omega (arith, sizes)) ∙ sym (ltb-true size (length others) h)
      | no h ↦
          ltb-false end whole (omega (arith, sizes))
          ∙ sym (ltb-false size (length others) (omega arith))
    ] in
    ap₂ (λ (ids : List Bytes) (m : Bool). record { identifiers = ids; more_follows = m })
      (ap₂ take width (drop_front listed others) ∙ take-min size others) more
