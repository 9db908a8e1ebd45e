-- ===== src/Mms/Loop.antt =====
-- The loops `while !r.is_empty() { out.push(...) }` of crates/iec61850-mms/src/mms, over what reads one element. A loop
-- has one round per octet as fuel, and an element has one octet at least.
use iec_61850_studio.Base.{
  ℕ, zero, suc, ◌^◌, ◌<◌, ◌≤◌, List, [], ◌∷◌, ◌++◌, false, length, All, if◌then◌else◌, ◌≡◌, refl,
  ap, arith, length-append,
}
use mathlib.Core.Path.{fun_ext}
use iec_61850_studio.Base.Result.{ok, err, ◌>>=◌, map_err}
use iec_61850_studio.Base.Words.{Bytes}
use iec_61850_studio.Ber.Error.{BerError}
use iec_61850_studio.Ber.Reader.{Tlv, BerReader, is_empty, new, read_tlv}
use iec_61850_studio.Ber.Fields.{Stands, at_end-is_empty, not-is_empty, read_tlv_step}
use iec_61850_studio.Ber.Writer.Laws.{tlv_octets}
use iec_61850_studio.Ber.Children.{Child, child_octets}
use iec_61850_studio.Ber.Nested.{each_octets, tlv_octets_some}
use iec_61850_studio.Transport.Error.{MmsError, MmsResult, out_of_fuel}

module _ {A : Type 0} (read : BerReader → MmsResult (A × BerReader)) where
  unfoldable pub read_all : ℕ → BerReader → MmsResult (List A)
  read_all zero r = if is_empty r then ok [] else err out_of_fuel
  read_all (suc n) r =
      let rest = (do (a, r') ← read r; others ← read_all n r'; ok (a ∷ others)) in
      if is_empty r then ok [] else rest

  -- The elements of a content.
  abbrev pub read_each : Bytes → MmsResult (List A)
  read_each content = read_all (length content) (new content)

  module _ (octets : A → Bytes) (P : A → Type 0) where
    -- What reads one element reads what was written for it.
    abbrev pub Reads : Type 0
    Reads =
        (a : A) (r : BerReader) (rest : Bytes)
        → P a
        → Stands r (octets a ++ rest)
        → (r' : BerReader) × (read r ≡ ok (a, r')) × Stands r' rest

    abbrev pub SomeOctets : Type 0
    SomeOctets = (a : A) → 1 ≤ length (octets a)

    octets-is_empty :
        (r : BerReader) (rest : Bytes) → 1 ≤ length rest → Stands r rest → is_empty r ≡ false
    unfolding is_empty
    octets-is_empty r rest h (front, e, total) = rw e (ground (arith, length-append front rest))

    pub read_all-octets :
        Reads
        → SomeOctets
        → (items : List A) (fuel : ℕ) (r : BerReader) → All P items
        → length (each_octets octets items) ≤ fuel
        → Stands r (each_octets octets items)
        → read_all fuel r ≡ ok items
    unfolding read_all
    read_all-octets reads some_octets [] zero r h enough stands = rw (at_end-is_empty r stands) refl
    read_all-octets reads some_octets [] (suc n) r h enough stands =
        rw (at_end-is_empty r stands) refl
    read_all-octets reads some_octets (a ∷ items) zero r h enough stands =
        absurd (
          omega (arith, enough, some_octets a, length-append (octets a) (each_octets octets items)))
    read_all-octets reads some_octets (a ∷ items) (suc n) r (ha, h) enough stands =
        let others : Bytes = each_octets octets items in
        let size = length-append (octets a) others in
        let more =
          octets-is_empty r (octets a ++ others) (omega (arith, size, some_octets a)) stands in
        let (r', e, stands') = reads a r others ha stands in
        let ih =
          read_all-octets reads some_octets items n r' h
            (omega (arith, size, some_octets a, enough)) stands' in
        rw (more, e, ih) refl

    pub read_each-octets :
        Reads
        → SomeOctets
        → (items : List A) → All P items
        → Stands (new (each_octets octets items)) (each_octets octets items)
        → read_each (each_octets octets items) ≡ ok items
    read_each-octets reads some_octets items h stands =
        read_all-octets reads some_octets items (length (each_octets octets items)) _ h
          (omega arith) stands

-- A loop over the TLVs of a structure that changes a state: `while !r.is_empty() { let item = r.read_tlv()?; ... }`, with
-- `error` for what is reported of a TLV that cannot be read.
module _ {S : Type 0} (error : BerError → MmsError) (step : Tlv → S → MmsResult S) where
  unfoldable pub fold_all : ℕ → BerReader → S → MmsResult S
  fold_all zero r state = if is_empty r then ok state else err out_of_fuel
  fold_all (suc n) r state =
      let rest = (do
        (t, r') ← map_err error (read_tlv r)
        state' ← step t state
        fold_all n r' state') in
      if is_empty r then ok state else rest

  abbrev pub fold_each : Bytes → S → MmsResult S
  fold_each content state = fold_all (length content) (new content) state

  -- The steps on children that were written, one after the other.
  abbrev pub steps : List Child → S → MmsResult S
  steps [] state = ok state
  steps ((tag, content) ∷ children) state = do
    state' ← step (record { tag = tag; content = content }) state
    steps children state'

  pub fold_all-octets :
      (children : List Child) (fuel : ℕ) (r : BerReader) (state : S)
      → All (λ c. c.0.number < 2 ^ 32) children
      → length (each_octets child_octets children) ≤ fuel
      → Stands r (each_octets child_octets children)
      → fold_all fuel r state ≡ steps children state
  unfolding fold_all
  fold_all-octets [] zero r state h enough stands = rw (at_end-is_empty r stands) refl
  fold_all-octets [] (suc n) r state h enough stands = rw (at_end-is_empty r stands) refl
  fold_all-octets ((tag, content) ∷ children) zero r state h enough stands = absurd (
      omega (
        arith,
        enough,
        tlv_octets_some tag content,
        length-append (tlv_octets tag content) (each_octets child_octets children),
      ))
  fold_all-octets ((tag, content) ∷ children) (suc n) r state (number, h) enough stands =
      let others : Bytes = each_octets child_octets children in
      let (r', e, stands') = read_tlv_step r tag content others number stands in
      let fuelled : length others ≤ n = omega (
        arith,
        enough,
        tlv_octets_some tag content,
        length-append (tlv_octets tag content) others,
      ) in
      rw (not-is_empty r tag content others stands, e)
        (ap (λ (f : S → MmsResult S). step (record { tag = tag; content = content }) state >>= f)
          (fun_ext λ state'. fold_all-octets children n r' state' h fuelled stands'))

  pub fold_each-octets :
      (children : List Child) (state : S)
      → All (λ c. c.0.number < 2 ^ 32) children
      → Stands (new (each_octets child_octets children)) (each_octets child_octets children)
      → fold_each (each_octets child_octets children) state ≡ steps children state
  fold_each-octets children state h stands =
      fold_all-octets children (length (each_octets child_octets children)) _ state h (omega arith)
        stands
