-- ===== src/Mms/Journal.antt =====
-- crates/iec61850-mms/src/mms/journal.rs: `ReadJournal`, the entries of a log.
pub mod RoundTrip
use iec_61850_studio.Base.{
  ℕ, List, [], ◌∷◌, ◌++◌, Option, none, some, Bool, true, false, replicate, length, if◌then◌else◌,
}
use iec_61850_studio.Base.Result.{ok, err, ◌>>=◌}
use iec_61850_studio.Base.Words.{Bytes}
use iec_61850_studio.Ber.Error.{Tag, BerResult}
use iec_61850_studio.Ber.Tag.{tag_eq}
use iec_61850_studio.Ber.Data.{MmsData}
use iec_61850_studio.Ber.Data
use iec_61850_studio.Ber.Primitives.{decode_bool}
use iec_61850_studio.Ber.Reader.{Tlv, BerReader, new, read_tlv, expect, read_if}
use iec_61850_studio.Ber.Writer.{BerWriter, tlv, boolean, octet_string, visible_string, sequence}
use iec_61850_studio.Ber.Std.{Std}
use iec_61850_studio.Ber.Nested.{write_each}
use iec_61850_studio.Mms.Loop.{read_each, fold_each, fold_all}
use iec_61850_studio.Mms.Pdu.{
  context_tag, from_ber, read_domain_specific, write_domain_specific, expect_service,
}
use iec_61850_studio.Transport.Error.{MmsResult, ber}

abbrev pub read_journal : Tag
read_journal = context_tag 65 true

pub record JournalEntry : Type 0 where
  pub entry_id : Bytes
  pub occurrence_time : Bytes
  pub values : List MmsData

unfoldable pub write_request : Bytes → Bytes → BerWriter → BerWriter
write_request domain item w = tlv w read_journal λ b.
    tlv
      (tlv (tlv b (context_tag 0 true) (write_domain_specific domain item)) (context_tag 1 true)
        (λ c. octet_string c (context_tag 0 false) (replicate 6 0)))
      (context_tag 2 true) (λ c. octet_string c (context_tag 0 false) (replicate 6 0xff))

unfoldable pub decode_request : Std → Tlv → MmsResult (Bytes × Bytes)
decode_request s service_tlv = do
  content ← expect_service service_tlv read_journal
  (name, _) ← from_ber (expect (new content) (context_tag 0 true))
  read_domain_specific s (new name)

abbrev pub write_value : Std → MmsData → BerWriter → BerWriter
write_value s d w =
    sequence w
      λ b. tlv (visible_string b (context_tag 0 false) []) (context_tag 1 true) (Data.encode s d)

-- The values, where there are some.
abbrev pub write_values : Std → List MmsData → BerWriter → BerWriter
write_values s [] w = w
write_values s (d ∷ values) w = tlv w (context_tag 2 true) (write_each (write_value s) (d ∷ values))

abbrev pub write_entry : Std → JournalEntry → BerWriter → BerWriter
write_entry s e w = sequence w λ b.
    tlv (octet_string b (context_tag 0 false) e.entry_id) (context_tag 2 true)
      (λ c. write_values s e.values (octet_string c (context_tag 0 false) e.occurrence_time))

unfoldable pub encode_response : Std → List JournalEntry → Bool → BerWriter → BerWriter
encode_response s entries more_follows w = tlv w read_journal λ b.
    boolean (tlv b (context_tag 0 true) (write_each (write_entry s) entries)) (context_tag 1 false)
      more_follows

-- `occurrence_time` and `values` while an entry is read.
pub record EntryState : Type 0 where
  pub occurrence_time : Bytes
  pub values : List MmsData

abbrev pub push_value : BerResult MmsData → EntryState → EntryState
push_value (ok v) state = record state { values = state.values ++ v ∷ [] }
push_value (err _) state = state

abbrev pub push_decoded : Std → BerResult (Tlv × BerReader) → EntryState → EntryState
push_decoded s (ok (d, _)) state = push_value (Data.decode s d) state
push_decoded s (err _) state = state

-- The bodies of the loops, from the innermost outwards.
unfoldable pub on_field : Std → Tlv → EntryState → MmsResult EntryState
on_field s f state =
    if tag_eq f.tag (context_tag 1 true)
    then ok (push_decoded s (read_tlv (new f.content)) state)
    else ok state

unfoldable pub on_variable : Std → Tlv → EntryState → MmsResult EntryState
on_variable s vseq state = fold_each ber (on_field s) vseq.content state

unfoldable pub on_inner : Std → Tlv → EntryState → MmsResult EntryState
on_inner s inner state =
    if tag_eq inner.tag (context_tag 0 false)
    then ok (record state { occurrence_time = inner.content })
    else if tag_eq inner.tag (context_tag 2 true)
    then fold_each ber (on_variable s) inner.content state
    else ok state

unfoldable pub on_content : Std → Tlv → EntryState → MmsResult EntryState
on_content s t state =
    if tag_eq t.tag (context_tag 2 true)
    then fold_each ber (on_inner s) t.content state
    else ok state

unfoldable pub decode_entry : Std → Bytes → MmsResult JournalEntry
decode_entry s content = do
  (entry_id, r) ← from_ber (expect (new content) (context_tag 0 false))
  state ←
      fold_all ber (on_content s) (length content) r (record { occurrence_time = []; values = [] })
  ok (record {
    entry_id = entry_id;
    occurrence_time = state.occurrence_time;
    values = state.values;
  })

-- One round of the loop over the entries.
unfoldable pub read_entry : Std → BerReader → MmsResult (JournalEntry × BerReader)
read_entry s lr = do (je, lr') ← from_ber (read_tlv lr); e ← decode_entry s je.content; ok (e, lr')

abbrev pub more_or_false : Option Bytes → MmsResult Bool
more_or_false none = ok false
more_or_false (some c) = from_ber (decode_bool c)

unfoldable pub decode_response : Std → Tlv → MmsResult (List JournalEntry × Bool)
decode_response s service_tlv = do
  content ← expect_service service_tlv read_journal
  (list, r) ← from_ber (expect (new content) (context_tag 0 true))
  entries ← read_each (read_entry s) list
  (more, _) ← from_ber (read_if r (context_tag 1 false))
  more_follows ← more_or_false more
  ok (entries, more_follows)
