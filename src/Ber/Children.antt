-- ===== src/Ber/Children.antt =====
-- The search for a child of a structure: the loop `while !r.is_empty() { let tlv = r.read_tlv()?; ... }` that returns
-- at the first TLV that passes a test, with one round per octet as fuel.
use iec_61850_studio.Base.{
  ℕ, zero, suc, ◌^◌, ◌<◌, ◌≤◌, List, [], ◌∷◌, Option, none, some, Bool, true, false, length, All,
  if◌then◌else◌, ◌≡◌, refl, arith, inl, inr, Bool-cases, length-append,
}
use iec_61850_studio.Base.Result.{ok, err, ◌>>=◌}
use iec_61850_studio.Base.Words.{Bytes}
use iec_61850_studio.Ber.Error.{Tag, BerResult, out_of_fuel}
use iec_61850_studio.Ber.Reader.{Tlv, BerReader, new, is_empty, read_tlv}
use iec_61850_studio.Ber.Writer.Laws.{tlv_octets}
use iec_61850_studio.Ber.Fields.{Stands, read_tlv_step, at_end-is_empty, not-is_empty}
use iec_61850_studio.Ber.Nested.{each_octets, tlv_octets_some}

-- The search goes on with what follows a TLV that does not pass.
abbrev pub or_later : Bool → Tlv → BerResult (Option Tlv) → BerResult (Option Tlv)
or_later true t later = ok (some t)
or_later false t later = later

unfoldable pub search_child : (Tag → Bool) → ℕ → BerReader → BerResult (Option Tlv)
search_child test zero r = if is_empty r then ok none else err out_of_fuel
search_child test (suc n) r =
    let rest = (do (t, r') ← read_tlv r; or_later (test t.tag) t (search_child test n r')) in
    if is_empty r then ok none else rest

abbrev pub search_children : (Tag → Bool) → Bytes → BerResult (Option Tlv)
search_children test content = search_child test (length content) (new content)

abbrev pub Child : Type 0
Child = Tag × Bytes

abbrev pub child_octets : Child → Bytes
child_octets (tag, content) = tlv_octets tag content

-- The first child that passes.
abbrev pub first_child : (Tag → Bool) → List Child → Option Tlv
first_child test [] = none
first_child test ((tag, content) ∷ children) =
    if test tag then some (record { tag = tag; content = content }) else first_child test children

search_child-octets :
    (test : Tag → Bool) (children : List Child) (fuel : ℕ) (r : BerReader)
    → All (λ c. c.0.number < 2 ^ 32) children
    → length (each_octets child_octets children) ≤ fuel
    → Stands r (each_octets child_octets children)
    → search_child test fuel r ≡ ok (first_child test children)
unfolding search_child
search_child-octets test [] zero r h enough stands = rw (at_end-is_empty r stands) refl
search_child-octets test [] (suc n) r h enough stands = rw (at_end-is_empty r stands) refl
search_child-octets test ((tag, content) ∷ children) zero r h enough stands = absurd (
    omega (
      arith,
      enough,
      tlv_octets_some tag content,
      length-append (tlv_octets tag content) (each_octets child_octets children),
    ))
search_child-octets test ((tag, content) ∷ children) (suc n) r (number, h) enough stands =
    let others : Bytes = each_octets child_octets children in
    let (r', e, stands') = read_tlv_step r tag content others number stands in
    let more = not-is_empty r tag content others stands in
    let fuelled : length others ≤ n =
      omega (
        arith,
        enough,
        tlv_octets_some tag content,
        length-append (tlv_octets tag content) others,
      ) in
    let ih = search_child-octets test children n r' h fuelled stands' in
    elim (Bool-cases (test tag)) [
      | inl passes ↦ rw (more, e, passes) refl
      | inr fails ↦ rw (more, e, fails) ih
    ]

-- In a structure of children, the search finds the first child that passes.
pub search_children-octets :
    (test : Tag → Bool) (children : List Child)
    → All (λ c. c.0.number < 2 ^ 32) children
    → Stands (new (each_octets child_octets children)) (each_octets child_octets children)
    → search_children test (each_octets child_octets children) ≡ ok (first_child test children)
search_children-octets test children h stands =
    search_child-octets test children (length (each_octets child_octets children)) _ h (omega arith)
      stands
