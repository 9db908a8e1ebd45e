-- ===== src/Base/Maps.antt =====
-- A map with byte strings as keys, an association list with one entry per key, and a set of byte strings.
use mathlib.Core.Path.{◌≡◌, refl}
use mathlib.Core.Logic.{inl, inr}
use mathlib.Core.Bool.{Bool, true, false, ◌||◌}
use mathlib.Core.Option.{Option, none, some}
use mathlib.Core.List.{List, [], ◌∷◌}
use native.Mathlib.Omega.{arith}
use iec_61850_studio.Base.Tests.{if◌then◌else◌, bytes_eq, bytes_eq_iff, bytes_eq_refl, Bool-cases}
use iec_61850_studio.Base.Words.{Bytes}

-- `HashSet::contains`
unfoldable pub contains : List Bytes → Bytes → Bool
contains [] key = false
contains (k ∷ ks) key = if bytes_eq k key then true else contains ks key

pub contains-cons :
    (ks : List Bytes) (k key : Bytes) → contains (k ∷ ks) key ≡ bytes_eq k key || contains ks key
unfolding contains
contains-cons ks k key = ground arith

module _ {A : Type 0} where
  -- `HashMap::get`
  unfoldable pub get : List (Bytes × A) → Bytes → Option A
  get [] key = none
  get ((k, a) ∷ entries) key = if bytes_eq k key then some a else get entries key

  -- `HashMap::insert`, which replaces the value of a key
  unfoldable pub insert : List (Bytes × A) → Bytes → A → List (Bytes × A)
  insert [] key a = (key, a) ∷ []
  insert ((k, old) ∷ entries) key a =
      let rest = insert entries key a in
      if bytes_eq k key then (key, a) ∷ entries else (k, old) ∷ rest

  pub get-insert :
      (entries : List (Bytes × A)) (key : Bytes) (a : A) → get (insert entries key a) key ≡ some a
  unfolding get insert
  get-insert [] key a = rw (bytes_eq_refl key) refl
  get-insert ((k, old) ∷ entries) key a = elim (Bool-cases (bytes_eq k key)) [
    | inl e ↦ rw (e, bytes_eq_refl key) refl
    | inr e ↦ rw (e, e) (get-insert entries key a)
  ]

  pub get-insert_other :
      (entries : List (Bytes × A)) (key other : Bytes) (a : A)
      → bytes_eq key other ≡ false
      → get (insert entries key a) other ≡ get entries other
  unfolding get insert
  get-insert_other [] key other a differs = rw differs refl
  get-insert_other ((k, old) ∷ entries) key other a differs = elim (Bool-cases (bytes_eq k key)) [
    | inl e ↦
        let same : k ≡ key = (bytes_eq_iff k key).0 e in rw (same, bytes_eq_refl key, differs) refl
    | inr e ↦ rw (e, get-insert_other entries key other a differs) refl
  ]
