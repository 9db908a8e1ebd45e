-- ===== src/Base/Splitting.antt =====
-- Texts that were put together are taken apart again, where no part has the separator.
use mathlib.Core.Path.{◌≡◌, refl, ap, ◌∙◌}
use mathlib.Core.Logic.{◌≢◌}
use mathlib.Core.Bool.{Bool, true, false}
use mathlib.Core.Option.{none, some}
use mathlib.Core.List.{List, [], ◌∷◌, ◌++◌, append-nil}
use Prim.Native.Nat.{ℕ, ◌-◌}
use native.Mathlib.Omega.{arith}
use iec_61850_studio.Base.Tests.{if◌then◌else◌, ◌==◌, ltb, ltb-false, bytes_eq_refl}
use iec_61850_studio.Base.Lists.{All, All-append, length, take_front, drop_front, length-append}
use iec_61850_studio.Base.Words.{Bytes}
use iec_61850_studio.Base.Strings.{
  split, push_first, split_once, front_step, rsplit_once, last_step, joined, strip_suffix,
}

-- The separator does not occur.
abbrev pub Without : ℕ → Bytes → Type 0
Without separator text = All (λ c. c ≢ separator) text

differs : (c separator : ℕ) → c ≢ separator → (c == separator) ≡ false
differs c separator h = ground arith

itself : (separator : ℕ) → (separator == separator) ≡ true
itself separator = ground arith

split-whole : (separator : ℕ) (x : Bytes) → Without separator x → split separator x ≡ x ∷ []
unfolding split
split-whole separator [] h = refl
split-whole separator (c ∷ x) (hc, h) =
    rw (differs c separator hc) (ap (push_first c) (split-whole separator x h))

split-piece :
    (separator : ℕ) (x y : Bytes)
    → Without separator x
    → split separator (x ++ separator ∷ y) ≡ x ∷ split separator y
unfolding split
split-piece separator [] y h = rw (itself separator) refl
split-piece separator (c ∷ x) y (hc, h) =
    rw (differs c separator hc) (ap (push_first c) (split-piece separator x y h))

-- A name and further names, joined by a separator that none has, are the pieces of the text.
pub split-joined :
    (separator : ℕ) (name : Bytes) (names : List Bytes)
    → Without separator name
    → All (Without separator) names
    → split separator (name ++ joined separator names) ≡ name ∷ names
split-joined separator name [] h hs =
    ap (split separator) (append-nil name) ∙ split-whole separator name h
split-joined separator name (next ∷ names) h (hn, hs) =
    split-piece separator name (next ++ joined separator names) h
    ∙ ap (λ (t : List Bytes). name ∷ t) (split-joined separator next names hn hs)

pub split_once-append :
    (separator : ℕ) (x y : Bytes)
    → Without separator x
    → split_once separator (x ++ separator ∷ y) ≡ some (x, y)
unfolding split_once
split_once-append separator [] y h = rw (itself separator) refl
split_once-append separator (c ∷ x) y (hc, h) =
    rw (differs c separator hc) (ap (front_step c) (split_once-append separator x y h))

pub rsplit_once-none :
    (separator : ℕ) (x : Bytes) → Without separator x → rsplit_once separator x ≡ none
unfolding rsplit_once
rsplit_once-none separator [] h = refl
rsplit_once-none separator (c ∷ x) (hc, h) =
    ap (last_step separator c x) (rsplit_once-none separator x h) ∙ rw (differs c separator hc) refl

pub rsplit_once-append :
    (separator : ℕ) (x y : Bytes)
    → Without separator y
    → rsplit_once separator (x ++ separator ∷ y) ≡ some (x, y)
unfolding rsplit_once
rsplit_once-append separator [] y h =
    ap (last_step separator separator y) (rsplit_once-none separator y h)
    ∙ rw (itself separator) refl
rsplit_once-append separator (c ∷ x) y h =
    ap (last_step separator c (x ++ separator ∷ y)) (rsplit_once-append separator x y h)

pub strip_suffix-append :
    (text pattern : Bytes) → strip_suffix pattern (text ++ pattern) ≡ some text
unfolding strip_suffix
strip_suffix-append text pattern =
    let size = length-append text pattern in
    let cut : length (text ++ pattern) - length pattern ≡ length text = omega (arith, size) in
    let fits : ltb (length (text ++ pattern)) (length pattern) ≡ false =
      ltb-false (length (text ++ pattern)) (length pattern) (omega (arith, size)) in
    rw (fits, cut, drop_front text pattern, bytes_eq_refl pattern, take_front text pattern) refl

unfoldable pub lacks : ℕ → Bytes → Bool
lacks separator [] = true
lacks separator (c ∷ cs) = let rest = lacks separator cs in if c == separator then false else rest

pub lacks-Without : (separator : ℕ) (x : Bytes) → lacks separator x ≡ true → Without separator x
unfolding lacks
lacks-Without separator [] e = tt
lacks-Without separator (c ∷ x) e = ground (arith, lacks-Without separator x)

pub Without-append :
    (separator : ℕ) (x y : Bytes)
    → Without separator x
    → Without separator y
    → Without separator (x ++ y)
Without-append separator x y hx hy = All-append (λ c. c ≢ separator) x y hx hy

pub Without-joined :
    (separator other : ℕ) (names : List Bytes)
    → other ≢ separator
    → All (Without separator) names
    → Without separator (joined other names)
Without-joined separator other [] h hs = tt
Without-joined separator other (name ∷ names) h (hn, hs) = (
  h,
  Without-append separator name (joined other names) hn (Without-joined separator other names h hs),
)
