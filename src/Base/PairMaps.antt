-- ===== src/Base/PairMaps.antt =====
-- A map whose keys are pairs of texts, `HashMap<(String, String), A>`: an association list with one entry per key.
use mathlib.Core.Path.{◌≡◌, refl, ap, ◌∙◌}
use mathlib.Core.Logic.{inl, inr}
use mathlib.Core.Bool.{Bool, true, false, ◌&&◌}
use mathlib.Core.Option.{Option, none, some}
use mathlib.Core.List.{List, [], ◌∷◌}
use native.Mathlib.Omega.{arith}
use iec_61850_studio.Base.Tests.{if◌then◌else◌, bytes_eq, bytes_eq_iff, bytes_eq_refl, Bool-cases}
use iec_61850_studio.Base.Words.{Bytes}

abbrev pub Key : Type 0
Key = Bytes × Bytes

abbrev pub key_eq : Key → Key → Bool
key_eq (a, b) (c, d) = bytes_eq a c && bytes_eq b d

pub key_eq_refl : (k : Key) → key_eq k k ≡ true
key_eq_refl (a, b) = rw (bytes_eq_refl a, bytes_eq_refl b) refl

pub key_eq-same : (k l : Key) → key_eq k l ≡ true → k ≡ l
key_eq-same (a, b) (c, d) e = ground (arith, bytes_eq_iff a c, bytes_eq_iff b d)

module _ {A : Type 0} where
  unfoldable pub find : List (Key × A) → Key → Option A
  find [] key = none
  find ((k, a) ∷ entries) key = if key_eq k key then some a else find entries key

  unfoldable pub put : List (Key × A) → Key → A → List (Key × A)
  put [] key a = (key, a) ∷ []
  put ((k, old) ∷ entries) key a =
      let rest = put entries key a in if key_eq k key then (key, a) ∷ entries else (k, old) ∷ rest

  unfoldable pub remove : List (Key × A) → Key → List (Key × A)
  remove [] key = []
  remove ((k, a) ∷ entries) key =
      let rest = remove entries key in if key_eq k key then rest else (k, a) ∷ rest

  pub find-put :
      (entries : List (Key × A)) (key : Key) (a : A) → find (put entries key a) key ≡ some a
  unfolding find put
  find-put [] key a = rw (key_eq_refl key) refl
  find-put ((k, old) ∷ entries) key a = elim (Bool-cases (key_eq k key)) [
    | inl e ↦ rw (e, key_eq_refl key) refl
    | inr e ↦ rw (e, e) (find-put entries key a)
  ]

  pub find-put_other :
      (entries : List (Key × A)) (key other : Key) (a : A)
      → key_eq key other ≡ false
      → find (put entries key a) other ≡ find entries other
  unfolding find put
  find-put_other [] key other a differs = rw differs refl
  find-put_other ((k, old) ∷ entries) key other a differs = elim (Bool-cases (key_eq k key)) [
    | inl e ↦
        let old_differs : key_eq k other ≡ false =
          ap (λ (t : Key). key_eq t other) (key_eq-same k key e) ∙ differs in
        rw (e, differs, old_differs) refl
    | inr e ↦ rw (e, find-put_other entries key other a differs) refl
  ]

  pub find-remove : (entries : List (Key × A)) (key : Key) → find (remove entries key) key ≡ none
  unfolding find remove
  find-remove [] key = refl
  find-remove ((k, a) ∷ entries) key = elim (Bool-cases (key_eq k key)) [
    | inl e ↦ rw e (find-remove entries key)
    | inr e ↦ rw (e, e) (find-remove entries key)
  ]

  pub find-remove_other :
      (entries : List (Key × A)) (key other : Key)
      → key_eq key other ≡ false
      → find (remove entries key) other ≡ find entries other
  unfolding find remove
  find-remove_other [] key other differs = refl
  find-remove_other ((k, a) ∷ entries) key other differs = elim (Bool-cases (key_eq k key)) [
    | inl e ↦
        let old_differs : key_eq k other ≡ false =
          ap (λ (t : Key). key_eq t other) (key_eq-same k key e) ∙ differs in
        rw (e, old_differs) (find-remove_other entries key other differs)
    | inr e ↦ rw (e, find-remove_other entries key other differs) refl
  ]
