-- ===== src/Base/Strings.antt =====
-- Texts as byte strings: what `str::contains`, `strip_prefix`, `strip_suffix` and `split` do.
use mathlib.Core.Path.{◌≡◌, refl}
use mathlib.Core.Bool.{Bool, true, false, ◌||◌}
use mathlib.Core.Option.{Option, none, some}
use mathlib.Core.List.{List, [], ◌∷◌, ◌++◌}
use Prim.Native.Nat.{ℕ, zero, suc, ◌-◌}
use native.Mathlib.Omega.{arith}
use iec_61850_studio.Base.Tests.{if◌then◌else◌, ◌==◌, ltb, bytes_eq}
use iec_61850_studio.Base.Lists.{length, take, drop}
use iec_61850_studio.Base.Words.{Bytes}

-- `text.strip_prefix(pattern)`
unfoldable pub strip_prefix : Bytes → Bytes → Option Bytes
strip_prefix [] text = some text
strip_prefix (p ∷ ps) [] = none
strip_prefix (p ∷ ps) (c ∷ cs) = let rest = strip_prefix ps cs in if p == c then rest else none

abbrev pub is_some {ℓ} : {A : Type ℓ} → Option A → Bool
is_some none = false
is_some (some _) = true

abbrev pub starts_with : Bytes → Bytes → Bool
starts_with pattern text = is_some (strip_prefix pattern text)

-- `text.contains(pattern)`
unfoldable pub contains_text : Bytes → Bytes → Bool
contains_text pattern [] = starts_with pattern []
contains_text pattern (c ∷ cs) = starts_with pattern (c ∷ cs) || contains_text pattern cs

-- `text.strip_suffix(pattern)`
unfoldable pub strip_suffix : Bytes → Bytes → Option Bytes
strip_suffix pattern text =
    let cut = length text - length pattern in
    if ltb (length text) (length pattern)
    then none
    else if bytes_eq (drop cut text) pattern
    then some (take cut text)
    else none

-- An octet in front of the first piece.
abbrev pub push_first : ℕ → List Bytes → List Bytes
push_first c [] = (c ∷ []) ∷ []
push_first c (piece ∷ pieces) = (c ∷ piece) ∷ pieces

-- `text.split(separator)`, which gives at least one piece
unfoldable pub split : ℕ → Bytes → List Bytes
split separator [] = [] ∷ []
split separator (c ∷ cs) =
    let pieces = split separator cs in if c == separator then [] ∷ pieces else push_first c pieces

pub strip_prefix-append :
    (pattern text : Bytes) → strip_prefix pattern (pattern ++ text) ≡ some text
unfolding strip_prefix
strip_prefix-append [] text = refl
strip_prefix-append (p ∷ ps) text = ground (arith, strip_prefix-append ps text)

-- The scan of `text.replace(pattern, new)`, with the octets of a match that are still to be passed over.
unfoldable pub replace_from : Bytes → Bytes → ℕ → Bytes → Bytes
replace_from pattern new skip [] = []
replace_from pattern new (suc skip) (c ∷ cs) = replace_from pattern new skip cs
replace_from pattern new zero (c ∷ cs) =
    let matched = new ++ replace_from pattern new (length pattern - 1) cs in
    let other = c ∷ replace_from pattern new 0 cs in
    if starts_with pattern (c ∷ cs) then matched else other

abbrev pub replace : Bytes → Bytes → Bytes → Bytes
replace pattern new text = replace_from pattern new 0 text

-- `text.replacen(pattern, new, 1)`
unfoldable pub replace_first : Bytes → Bytes → Bytes → Bytes
replace_first pattern new [] = []
replace_first pattern new (c ∷ cs) =
    let other = c ∷ replace_first pattern new cs in
    if starts_with pattern (c ∷ cs) then new ++ drop (length pattern) (c ∷ cs) else other

-- `text.trim_end_matches(pattern)`, at most once per octet
abbrev pub trim_step : Bytes → Option Bytes → (Bytes → Bytes) → Bytes
trim_step text none again = text
trim_step text (some shorter) again = again shorter

unfoldable pub trim_end : ℕ → Bytes → Bytes → Bytes
trim_end zero pattern text = text
trim_end (suc n) pattern text = trim_step text (strip_suffix pattern text) (trim_end n pattern)

abbrev pub trim_end_matches : Bytes → Bytes → Bytes
trim_end_matches pattern text = trim_end (length text) pattern text

-- `text.split_once(separator)`
abbrev pub front_step : ℕ → Option (Bytes × Bytes) → Option (Bytes × Bytes)
front_step c none = none
front_step c (some (front, behind)) = some (c ∷ front, behind)

unfoldable pub split_once : ℕ → Bytes → Option (Bytes × Bytes)
split_once separator [] = none
split_once separator (c ∷ cs) =
    let later = front_step c (split_once separator cs) in
    if c == separator then some ([], cs) else later

-- `text.rfind(separator)`, with what stands in front of the last separator and behind it
abbrev pub last_step : ℕ → ℕ → Bytes → Option (Bytes × Bytes) → Option (Bytes × Bytes)
last_step separator c cs none = if c == separator then some ([], cs) else none
last_step separator c cs (some (front, behind)) = some (c ∷ front, behind)

unfoldable pub rsplit_once : ℕ → Bytes → Option (Bytes × Bytes)
rsplit_once separator [] = none
rsplit_once separator (c ∷ cs) = last_step separator c cs (rsplit_once separator cs)

-- Names, each behind a separator.
abbrev pub joined : ℕ → List Bytes → Bytes
joined separator [] = []
joined separator (name ∷ names) = (separator ∷ name) ++ joined separator names
