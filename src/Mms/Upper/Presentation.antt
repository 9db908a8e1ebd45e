-- ===== src/Mms/Upper/Presentation.antt =====
-- crates/iec61850-mms/src/upper/presentation.rs: the presentation PDUs CP and CPA, the negotiation of contexts, and the
-- envelope of the data phase.
pub mod Data
pub mod Connecting
pub mod Negotiation
use iec_61850_studio.Base.{
  ℕ, zero, suc, List, [], ◌∷◌, ◌++◌, Option, none, some, Bool, true, false, length, ◌==◌, ◌&&◌,
  ◌||◌, not, if◌then◌else◌, bytes_eq,
}
use iec_61850_studio.Base.Result.{Result, ok, err, ◌>>=◌, map_err}
use iec_61850_studio.Base.Words.{Bytes}
use iec_61850_studio.Base.Maps.{contains}
use iec_61850_studio.Ber.Error.{Tag, BerError, BerResult, universal, application}
use iec_61850_studio.Ber.Tag.{tag_eq, new as new_tag}
use iec_61850_studio.Ber.Primitives.{decode_integer, encode_oid}
use iec_61850_studio.Ber.Reader.{Tlv, BerReader, new, read_tlv, expect, is_empty}
use iec_61850_studio.Ber.Writer.{
  BerWriter, tlv, raw, integer, object_identifier, octet_string, sequence, sequence_tag,
}
use iec_61850_studio.Ber.Nested.{write_each}
use iec_61850_studio.Ber.Children.{search_children}
use iec_61850_studio.Transport.Error.{MmsResult, transport}
use iec_61850_studio.Mms.Loop.{fold_each}
use iec_61850_studio.Mms.Pdu.{context_tag, integer_tag, from_ber}
use iec_61850_studio.Mms.Upper.Acse.{oid_tag, single_asn1, is_value}

-- An object identifier of two arcs at least.
abbrev pub Oid : Type 0
Oid = ℕ × ℕ × List ℕ

abbrev pub acse_as : Oid
acse_as = (2, 2, 1 ∷ 0 ∷ 1 ∷ [])

abbrev pub mms_as : Oid
mms_as = (1, 0, 9506 ∷ 2 ∷ 1 ∷ [])

abbrev pub ber_ts : Oid
ber_ts = (2, 1, 1 ∷ [])

abbrev pub oid_content : Oid → Bytes
oid_content (a, b, arcs) = encode_oid a b arcs

abbrev pub write_oid : Tag → Oid → BerWriter → BerWriter
write_oid tag (a, b, arcs) w = object_identifier w tag a b arcs

abbrev pub acse_context_id : ℕ
acse_context_id = 1

abbrev pub mms_context_id : ℕ
mms_context_id = 3

abbrev pub set_tag : Tag
set_tag = new_tag universal true 17

abbrev pub fully_encoded : Tag
fully_encoded = new_tag application true 1

unfoldable pub user_data : Bytes → ℕ → Bytes
user_data pdu context_id =
    tlv [] fully_encoded
      λ w. sequence w λ b. tlv (integer b integer_tag context_id) single_asn1 (λ c. raw c pdu)

abbrev pub context_list_item : ℕ → Oid → BerWriter → BerWriter
context_list_item id abstract_syntax w = sequence w λ b.
    sequence (write_oid oid_tag abstract_syntax (integer b integer_tag id))
      (write_oid oid_tag ber_ts)

-- mode-selector [0] { [0] normal-mode(1) }
abbrev pub write_mode : BerWriter → BerWriter
write_mode w = tlv w (context_tag 0 true) (λ b. integer b (context_tag 0 false) 1)

abbrev pub selector : Bytes
selector = 0 ∷ 0 ∷ 0 ∷ 1 ∷ []

unfoldable pub connect_cp : Bytes → Bytes
connect_cp aarq = tlv [] set_tag λ w. tlv (write_mode w) (context_tag 2 true) λ b.
    raw
      (tlv
        (octet_string (octet_string b (context_tag 1 false) selector) (context_tag 2 false)
          selector)
        (context_tag 4 true)
        (λ c.
          context_list_item mms_context_id mms_as (context_list_item acse_context_id acse_as c)))
      (user_data aarq acse_context_id)

abbrev pub result_list_item : BerWriter → BerWriter
result_list_item w =
    sequence w (λ b. write_oid (context_tag 1 false) ber_ts (integer b (context_tag 0 false) 0))

abbrev pub rejection_item : ℕ → BerWriter → BerWriter
rejection_item reason w =
    sequence w (λ b. integer (integer b (context_tag 0 false) 2) (context_tag 2 false) reason)

unfoldable pub connect_cpa : Bytes → Bytes
connect_cpa aare = tlv [] set_tag λ w. tlv (write_mode w) (context_tag 2 true) λ b.
    raw
      (tlv (octet_string b (context_tag 1 false) selector) (context_tag 5 true)
        (λ c. result_list_item (result_list_item c)))
      (user_data aare acse_context_id)

pub record ProposedContext : Type 0 where
  pub id : ℕ
  pub abstract_syntax : Bytes
  pub transfer_syntaxes : List Bytes

pub record ParsedCp : Type 0 where
  pub contexts : List ProposedContext
  pub called_selector : Option Bytes
  pub inner_pdu : Bytes

pub data ContextVerdict : Type 0 where
  acceptance abstract_syntax_not_supported transfer_syntaxes_not_supported : ContextVerdict

pub record Negotiated : Type 0 where
  pub acse_id : Option ℕ
  pub mms_id : Option ℕ
  pub verdicts : List ContextVerdict

-- `if id.is_none() { id = Some(c.id) }` under a test
abbrev pub first_id : Bool → ℕ → Option ℕ → Option ℕ
first_id test new_id (some id) = some id
first_id test new_id none = if test then some new_id else none

unfoldable pub verdict_of : ProposedContext → ContextVerdict
verdict_of c =
    if not (
      bytes_eq c.abstract_syntax (oid_content acse_as)
      || bytes_eq c.abstract_syntax (oid_content mms_as))
    then abstract_syntax_not_supported
    else if not (contains c.transfer_syntaxes (oid_content ber_ts))
    then transfer_syntaxes_not_supported
    else acceptance

abbrev pub with_verdict : ContextVerdict → ProposedContext → Negotiated → Negotiated
with_verdict acceptance c neg = record {
  acse_id = first_id (bytes_eq c.abstract_syntax (oid_content acse_as)) c.id neg.acse_id;
  mms_id = first_id (bytes_eq c.abstract_syntax (oid_content mms_as)) c.id neg.mms_id;
  verdicts = neg.verdicts ++ acceptance ∷ [];
}
with_verdict verdict c neg = record neg { verdicts = neg.verdicts ++ verdict ∷ [] }

-- The loop of `negotiate`.
unfoldable pub negotiate_from : Negotiated → List ProposedContext → Negotiated
negotiate_from neg [] = neg
negotiate_from neg (c ∷ contexts) = negotiate_from (with_verdict (verdict_of c) c neg) contexts

unfoldable pub negotiate : List ProposedContext → Negotiated
negotiate contexts =
    negotiate_from (record { acse_id = none; mms_id = none; verdicts = [] }) contexts

abbrev pub write_verdict : ContextVerdict → BerWriter → BerWriter
write_verdict acceptance w = result_list_item w
write_verdict abstract_syntax_not_supported w = rejection_item 1 w
write_verdict transfer_syntaxes_not_supported w = rejection_item 2 w

abbrev pub or_selector : Option Bytes → Bytes
or_selector none = selector
or_selector (some s) = s

unfoldable pub connect_cpa_negotiated : Bytes → Negotiated → Option Bytes → ℕ → Bytes
connect_cpa_negotiated aare neg called_selector acse_id = tlv [] set_tag λ w.
    tlv (write_mode w) (context_tag 2 true) λ b.
      raw
        (tlv (octet_string b (context_tag 3 false) (or_selector called_selector))
          (context_tag 5 true) (write_each write_verdict neg.verdicts))
        (user_data aare acse_id)

-- The value of a PDV list.
abbrev pub pdv_value : Option Tlv → MmsResult Bytes
pdv_value none = err transport
pdv_value (some t) = ok t.content

unfoldable pub drill_pdv : Bytes → MmsResult Bytes
drill_pdv content = do
  (pdv, _) ← from_ber (expect (new content) sequence_tag)
  found ← from_ber (search_children is_value pdv)
  pdv_value found

-- `map_err(|_| err(..))`
abbrev pub as_transport : {A : Type 0} → BerResult A → MmsResult A
as_transport m = map_err (λ e. transport) m

-- The loop over the transfer syntaxes, which ends at the first that is none.
abbrev pub transfer_step : BerResult (Bytes × BerReader) → (BerReader → List Bytes) → List Bytes
transfer_step (ok (ts, tr)) again = ts ∷ again tr
transfer_step (err _) again = []

unfoldable pub transfer_syntaxes_in : ℕ → BerReader → List Bytes
transfer_syntaxes_in zero tr = []
transfer_syntaxes_in (suc n) tr =
    let rest = transfer_step (expect tr oid_tag) (transfer_syntaxes_in n) in
    if is_empty tr then [] else rest

abbrev pub transfer_syntaxes_of : BerResult (Bytes × BerReader) → List Bytes
transfer_syntaxes_of (ok (ts_list, _)) = transfer_syntaxes_in (length ts_list) (new ts_list)
transfer_syntaxes_of (err _) = []

-- The fields of a proposed context.
unfoldable pub read_context : Bytes → MmsResult ProposedContext
read_context content = do
  (id_content, r₁) ← as_transport (expect (new content) integer_tag)
  id ← as_transport (decode_integer id_content)
  (abs, r₂) ← as_transport (expect r₁ oid_tag)
  ok (record {
    id = id;
    abstract_syntax = abs;
    transfer_syntaxes = transfer_syntaxes_of (expect r₂ sequence_tag);
  })

-- One round of the loop; what is no SEQUENCE is passed over.
unfoldable pub on_context : Tlv → List ProposedContext → MmsResult (List ProposedContext)
on_context item out =
    if not (tag_eq item.tag sequence_tag)
    then ok out
    else (do c ← read_context item.content; ok (out ++ c ∷ []))

unfoldable pub parse_context_list : Bytes → MmsResult (List ProposedContext)
parse_context_list content = fold_each (λ _. transport) on_context content []

-- What is known of a CP as its elements are read.
pub record CpState : Type 0 where
  pub contexts : List ProposedContext
  pub called_selector : Option Bytes
  pub inner_pdu : Option Bytes

abbrev pub is_one : BerResult ℕ → Bool
is_one (ok v) = v == 1
is_one (err _) = false

-- `if let Ok(m) = mr.read_tlv()`
abbrev pub check_mode : BerResult (Tlv × BerReader) → CpState → MmsResult CpState
check_mode (ok (m, _)) state = if is_one (decode_integer m.content) then ok state else err transport
check_mode (err _) state = ok state

unfoldable pub on_parameter : Tlv → CpState → MmsResult CpState
on_parameter p state =
    if tag_eq p.tag (context_tag 2 false)
    then ok (record state { called_selector = some p.content })
    else if tag_eq p.tag (context_tag 4 true)
    then (do contexts ← parse_context_list p.content; ok (record state { contexts = contexts }))
    else if tag_eq p.tag fully_encoded
    then (do inner ← drill_pdv p.content; ok (record state { inner_pdu = some inner }))
    else ok state

unfoldable pub on_element : Tlv → CpState → MmsResult CpState
on_element item state =
    if tag_eq item.tag (context_tag 0 true)
    then check_mode (read_tlv (new item.content)) state
    else if tag_eq item.tag (context_tag 2 true)
    then fold_each (λ _. transport) on_parameter item.content state
    else ok state

-- A CP has contexts and user data.
abbrev pub complete : List ProposedContext → Option Bytes → Option Bytes → MmsResult ParsedCp
complete [] called_selector inner = err transport
complete (c ∷ contexts) called_selector none = err transport
complete (c ∷ contexts) called_selector (some inner) =
    ok (record { contexts = c ∷ contexts; called_selector = called_selector; inner_pdu = inner })

abbrev pub no_elements : CpState
no_elements = record { contexts = []; called_selector = none; inner_pdu = none }

unfoldable pub parse_cp : Bytes → MmsResult ParsedCp
parse_cp buf = do
  (set, _) ← as_transport (read_tlv (new buf))
  (if not (tag_eq set.tag set_tag) then err transport else (do
    state ← fold_each (λ _. transport) on_element set.content no_elements
    complete state.contexts state.called_selector state.inner_pdu))

-- The envelope at the front of what is left, or the search that goes on.
abbrev pub inner_or : MmsResult Bytes → MmsResult Bytes → MmsResult Bytes
inner_or (ok inner) later = ok inner
inner_or (err _) later = later

abbrev pub envelope_or : BerResult (Tlv × BerReader) → MmsResult Bytes → MmsResult Bytes
envelope_or (ok (fed, _)) later =
    if tag_eq fed.tag fully_encoded then inner_or (drill_pdv fed.content) later else later
envelope_or (err _) later = later

-- The loop over the starts, each what is left of the buffer.
unfoldable pub extract_inner_pdu : Bytes → MmsResult Bytes
extract_inner_pdu [] = err transport
extract_inner_pdu (b ∷ rest) =
    let later = extract_inner_pdu rest in
    if b == 0x61 then envelope_or (read_tlv (new (b ∷ rest))) later else later
