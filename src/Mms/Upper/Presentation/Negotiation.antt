-- ===== src/Mms/Upper/Presentation/Negotiation.antt =====
-- What the loop of `negotiate` comes to: a verdict for each context, and the first context of each kind that is accepted.
use iec_61850_studio.Base.{
  ℕ, List, [], ◌∷◌, ◌++◌, Option, none, some, Bool, true, false, ◌&&◌, ◌||◌, not, if◌then◌else◌,
  bytes_eq, ◌≡◌, ◌↔◌, refl, sym, ap, ◌∙◌, arith, append_assoc, append-nil,
}
use mathlib.Core.List.{map}
use iec_61850_studio.Base.Words.{Bytes}
use iec_61850_studio.Base.Maps.{contains}
use iec_61850_studio.Mms.Upper.Presentation.{
  ProposedContext, ContextVerdict, acceptance, abstract_syntax_not_supported,
  transfer_syntaxes_not_supported, Negotiated, oid_content, acse_as, mms_as, ber_ts, first_id,
  verdict_of, with_verdict, negotiate_from, negotiate,
}

-- A context with an abstract syntax, and BER among its transfer syntaxes.
abbrev pub offers : Bytes → ProposedContext → Bool
offers syntax c =
    bytes_eq c.abstract_syntax syntax && contains c.transfer_syntaxes (oid_content ber_ts)

-- The identifier of the first context that offers a syntax.
abbrev pub first_offer : Bytes → List ProposedContext → Option ℕ
first_offer syntax [] = none
first_offer syntax (c ∷ contexts) =
    if offers syntax c then some c.id else first_offer syntax contexts

abbrev or_first : Option ℕ → Option ℕ → Option ℕ
or_first (some id) later = some id
or_first none later = later

or_first-none : (known : Option ℕ) → or_first known none ≡ known
or_first-none none = refl
or_first-none (some k) = refl

first_id-or_first :
    (known : Option ℕ) (test : Bool) (id : ℕ) (later : Option ℕ)
    → or_first (first_id test id known) later ≡ or_first known (if test then some id else later)
first_id-or_first (some k) test id later = refl
first_id-or_first none true id later = refl
first_id-or_first none false id later = refl

first_id-false : (known : Option ℕ) (id : ℕ) → first_id false id known ≡ known
first_id-false none id = refl
first_id-false (some k) id = refl

abbrev described : Option ℕ → Option ℕ → List ContextVerdict → Negotiated
described acse mms verdicts = record { acse_id = acse; mms_id = mms; verdicts = verdicts }

abbrev verdict_for : Bool → Bool → Bool → ContextVerdict
verdict_for a m b =
    if not (a || m)
    then abstract_syntax_not_supported
    else if not b
    then transfer_syntaxes_not_supported
    else acceptance

module _ (id : ℕ) (acse mms : Option ℕ) (verdicts : List ContextVerdict) where
  -- What a verdict changes, by whether the context is one of ACSE or of MMS.
  abbrev outcome : Bool → Bool → ContextVerdict → Negotiated
  outcome a m acceptance =
      described (first_id a id acse) (first_id m id mms) (verdicts ++ acceptance ∷ [])
  outcome a m verdict = described acse mms (verdicts ++ verdict ∷ [])

  outcome_lem :
      (a m b : Bool)
      → outcome a m (verdict_for a m b)
        ≡ described
            (first_id (a && b) id acse)
            (first_id (m && b) id mms)
            (verdicts ++ verdict_for a m b ∷ [])
  outcome_lem true m true =
      ap
        (λ (t : Bool).
          described (first_id true id acse) (first_id t id mms) (verdicts ++ acceptance ∷ []))
        (sym (and-true m))
    where
      and-true : (t : Bool) → t && true ≡ t
      and-true true = refl
      and-true false = refl
  outcome_lem false true true = refl
  outcome_lem true true false = rw (first_id-false acse id, first_id-false mms id) refl
  outcome_lem true false false = rw (first_id-false acse id, first_id-false mms id) refl
  outcome_lem false true false = rw (first_id-false acse id, first_id-false mms id) refl
  outcome_lem false false true = rw (first_id-false acse id, first_id-false mms id) refl
  outcome_lem false false false = rw (first_id-false acse id, first_id-false mms id) refl

with_verdict_lem :
    (c : ProposedContext) (acse mms : Option ℕ) (verdicts : List ContextVerdict)
    → with_verdict (verdict_of c) c (described acse mms verdicts)
      ≡ described
          (first_id (offers (oid_content acse_as) c) c.id acse)
          (first_id (offers (oid_content mms_as) c) c.id mms)
          (verdicts ++ verdict_of c ∷ [])
unfolding verdict_of
with_verdict_lem c acse mms verdicts =
    as_outcome (verdict_for is_acse is_mms has_ber)
    ∙ outcome_lem c.id acse mms verdicts is_acse is_mms has_ber
  where
    is_acse : Bool
    is_acse = bytes_eq c.abstract_syntax (oid_content acse_as)

    is_mms : Bool
    is_mms = bytes_eq c.abstract_syntax (oid_content mms_as)

    has_ber : Bool
    has_ber = contains c.transfer_syntaxes (oid_content ber_ts)

    as_outcome :
        (v : ContextVerdict)
        → with_verdict v c (described acse mms verdicts)
          ≡ outcome c.id acse mms verdicts is_acse is_mms v
    as_outcome acceptance = refl
    as_outcome abstract_syntax_not_supported = refl
    as_outcome transfer_syntaxes_not_supported = refl

negotiate_from_lem :
    (contexts : List ProposedContext) (acse mms : Option ℕ) (verdicts : List ContextVerdict)
    → negotiate_from (described acse mms verdicts) contexts
      ≡ described
          (or_first acse (first_offer (oid_content acse_as) contexts))
          (or_first mms (first_offer (oid_content mms_as) contexts))
          (verdicts ++ map verdict_of contexts)
unfolding negotiate_from
negotiate_from_lem [] acse mms verdicts =
    rw (append-nil verdicts, or_first-none acse, or_first-none mms) refl
negotiate_from_lem (c ∷ contexts) acse mms verdicts =
    let a : Bool = offers (oid_content acse_as) c in
    let m : Bool = offers (oid_content mms_as) c in
    ap (λ (neg : Negotiated). negotiate_from neg contexts) (with_verdict_lem c acse mms verdicts)
    ∙ negotiate_from_lem contexts (first_id a c.id acse) (first_id m c.id mms)
        (verdicts ++ verdict_of c ∷ [])
    ∙ rw
        (
          first_id-or_first acse a c.id (first_offer (oid_content acse_as) contexts),
          first_id-or_first mms m c.id (first_offer (oid_content mms_as) contexts),
          append_assoc verdicts (verdict_of c ∷ []) (map verdict_of contexts),
        )
        refl

-- Any proposal: there is a verdict for each context, in the order of the proposal, and the contexts of ACSE and of MMS are the
-- first ones with that abstract syntax and BER among their transfer syntaxes.
pub negotiate_lem :
    (contexts : List ProposedContext)
    → negotiate contexts ≡ record {
      acse_id = first_offer (oid_content acse_as) contexts;
      mms_id = first_offer (oid_content mms_as) contexts;
      verdicts = map verdict_of contexts;
    }
unfolding negotiate
negotiate_lem contexts = negotiate_from_lem contexts none none []

-- A context is accepted exactly where it offers one of the two syntaxes with BER.
verdict_of_iff :
    (c : ProposedContext)
    → (verdict_of c ≡ acceptance)
      ↔ (offers (oid_content acse_as) c || offers (oid_content mms_as) c ≡ true)
unfolding verdict_of
verdict_of_iff c = ground arith
