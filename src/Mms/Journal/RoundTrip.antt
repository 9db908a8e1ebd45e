-- ===== src/Mms/Journal/RoundTrip.antt =====
-- The request for a log, and its entries, are read as they were written.
use iec_61850_studio.Base.{
  ◌≤◌, ◌<◌, ◌^◌, List, [], ◌∷◌, ◌++◌, some, Bool, true, false, length, All, inl, ◌≡◌, refl, sym, ap,
  ◌∙◌, arith, replicate, length-append, append-nil, append_assoc,
}
use iec_61850_studio.Base.Result.{ok}
use iec_61850_studio.Base.Words.{Bytes}
use iec_61850_studio.Ber.Tag.{tag_eq}
use iec_61850_studio.Ber.Data.{MmsData}
use iec_61850_studio.Ber.Data.Shape.{tag_of, content_of, encode-append}
use iec_61850_studio.Ber.Data.RoundTrip.{decode-content_of}
use iec_61850_studio.Ber.Primitives.{encode_bool}
use iec_61850_studio.Ber.Reader.{BerReader, new}
use iec_61850_studio.Ber.Writer.{sequence_tag}
use iec_61850_studio.Ber.Writer.Laws.{tlv_octets}
use iec_61850_studio.Ber.Std.{Std, IsIeee}
use iec_61850_studio.Ber.Fields.{Stands, Stands-fits, read_if_step}
use iec_61850_studio.Ber.Children.{Child, child_octets}
use iec_61850_studio.Ber.Nested.{
  Appends, Appends-then, Appends-last, Appends-tlv, Appends-octets, Appends-visible,
  Appends-boolean, Appends-sequence, Appends-each, expect_into, read_tlv_into, Stands-last,
  Appends-nothing, write_each, each_octets, tlv_octets_some,
}
use iec_61850_studio.Mms.Loop.{
  fold_each, read_each-octets, fold_each-octets, fold_all-octets, steps,
}
use iec_61850_studio.Mms.Pdu.{context_tag, expect_service}
use iec_61850_studio.Mms.Pdu.Variables.{
  Variable, IsVariable, specific_octets, write_domain_specific-Appends, read_domain_specific_lem,
}
use iec_61850_studio.Mms.Read.Results.{IsValue, tag_of-ne-failure}
use iec_61850_studio.Mms.Upper.Acse.Association.{child-Stands, Stands-small}
use iec_61850_studio.Mms.VariableLists.RoundTrip.{decode_bool-encode_bool}
use iec_61850_studio.Mms.Journal.{
  JournalEntry, EntryState, read_journal, write_request, decode_request, write_value, write_values,
  write_entry, encode_response, on_field, on_variable, on_inner, on_content, decode_entry,
  read_entry, decode_response,
}
use iec_61850_studio.Transport.Error.{ber}

module _ (s : Std) where
  abbrev field_children : MmsData → List Child
  field_children d =
      (context_tag 0 false, [])
      ∷ (context_tag 1 true, tlv_octets (tag_of d) (content_of s d) ++ [])
      ∷ []

  abbrev variable_child : MmsData → Child
  variable_child d = (sequence_tag, each_octets child_octets (field_children d))

  abbrev value_children : List MmsData → List Child
  value_children [] = []
  value_children (d ∷ values) = variable_child d ∷ value_children values

  write_value-Appends : (d : MmsData) → Appends (write_value s d) (child_octets (variable_child d))
  write_value-Appends d = Appends-sequence _ _ (
      Appends-then _ _ _ _ (Appends-visible (context_tag 0 false) []) (
        Appends-last _ _
          (Appends-tlv (context_tag 1 true) _ _ (Appends-last _ _ (encode-append s d)))))

  on_variable-octets :
      (d : MmsData) (state : EntryState)
      → IsIeee s
      → IsValue s d
      → Stands
          (new (each_octets child_octets (field_children d)))
          (each_octets child_octets (field_children d))
      → on_variable s
          (record { tag = sequence_tag; content = each_octets child_octets (field_children d) })
          state
        ≡ ok (record state { values = state.values ++ d ∷ [] })
  unfolding on_variable on_field tag_eq
  on_variable-octets d state ieee (h, nests) stands =
      let value : Bytes = tlv_octets (tag_of d) (content_of s d) in
      let (_, number) = tag_of-ne-failure d in
      let inside =
        child-Stands ((context_tag 0 false, []) ∷ []) (context_tag 1 true) (value ++ []) []
          (Stands-small _ stands) in
      let (_, e, _, inside') =
        read_tlv_into (new (value ++ [])) (tag_of d) (content_of s d) [] number inside in
      fold_each-octets ber (on_field s) (field_children d) state (omega arith) stands
      ∙ rw (e, decode-content_of s d ieee h nests (Stands-small _ inside')) refl

  value_numbers : (values : List MmsData) → All (λ c. c.0.number < 2 ^ 32) (value_children values)
  value_numbers [] = tt
  value_numbers (d ∷ values) = (omega arith, value_numbers values)

  -- The values are taken in their order.
  variables-octets :
      (values : List MmsData) (state : EntryState)
      → IsIeee s
      → All (IsValue s) values
      → length (each_octets child_octets (value_children values)) < 2 ^ 64
      → steps ber (on_variable s) (value_children values) state
        ≡ ok (record state { values = state.values ++ values })
  variables-octets [] state ieee h small =
      ap (λ (vs : List MmsData). ok (record state { values = vs })) (sym (append-nil state.values))
  variables-octets (d ∷ values) state ieee (hd, hs) small =
      let content : Bytes = each_octets child_octets (field_children d) in
      let stands = child-Stands [] sequence_tag content (value_children values) small in
      let fewer : length (each_octets child_octets (value_children values)) < 2 ^ 64 = omega (
        arith,
        small,
        length-append (tlv_octets sequence_tag content)
            (each_octets child_octets (value_children values)),
      ) in
      let first = on_variable-octets d state ieee hd stands in
      let pushed : EntryState = record state { values = state.values ++ d ∷ [] } in
      rw first (
        variables-octets values pushed ieee hs fewer
        ∙ ap (λ (vs : List MmsData). ok (record state { values = vs }))
            (append_assoc state.values (d ∷ []) values))

  -- The variables of an entry, where it has values.
  abbrev values_children : List MmsData → List Child
  values_children [] = []
  values_children (d ∷ values) =
      (context_tag 2 true, each_octets child_octets (value_children (d ∷ values))) ∷ []

  abbrev inner_children : JournalEntry → List Child
  inner_children e = (context_tag 0 false, e.occurrence_time) ∷ values_children e.values

  abbrev content_children : JournalEntry → List Child
  content_children e = (context_tag 2 true, each_octets child_octets (inner_children e)) ∷ []

  abbrev pub entry_content : JournalEntry → Bytes
  entry_content e =
      tlv_octets (context_tag 0 false) e.entry_id ++ each_octets child_octets (content_children e)

  abbrev pub entry_octets : JournalEntry → Bytes
  entry_octets e = tlv_octets sequence_tag (entry_content e)

  write_each_value-Appends :
      (values : List MmsData)
      → Appends
          (write_each (write_value s) values)
          (each_octets child_octets (value_children values))
  write_each_value-Appends [] = Appends-nothing
  write_each_value-Appends (d ∷ values) =
      Appends-then _ _ _ _ (write_value-Appends d) (write_each_value-Appends values)

  write_values-Appends :
      (values : List MmsData)
      → Appends (write_values s values) (each_octets child_octets (values_children values))
  write_values-Appends [] = Appends-nothing
  write_values-Appends (d ∷ values) =
      Appends-last _ _
        (Appends-tlv (context_tag 2 true) _ _ (write_each_value-Appends (d ∷ values)))

  write_entry-Appends : (e : JournalEntry) → Appends (write_entry s e) (entry_octets e)
  write_entry-Appends e = Appends-sequence _ _ (
      Appends-then _ _ _ _ (Appends-octets (context_tag 0 false) e.entry_id) (
        Appends-last _ _ (
          Appends-tlv (context_tag 2 true) _ _ (
            Appends-then _ _ _ _ (Appends-octets (context_tag 0 false) e.occurrence_time)
              (write_values-Appends e.values)))))

  abbrev pub IsEntry : JournalEntry → Type 0
  IsEntry e = All (IsValue s) e.values

  -- The loop inside the content of an entry.
  inner-octets :
      (time : Bytes) (values : List MmsData)
      → IsIeee s
      → All (IsValue s) values
      → Stands
          (new (each_octets child_octets ((context_tag 0 false, time) ∷ values_children values)))
          (each_octets child_octets ((context_tag 0 false, time) ∷ values_children values))
      → fold_each ber
          (on_inner s)
          (each_octets child_octets ((context_tag 0 false, time) ∷ values_children values))
          (record { occurrence_time = []; values = [] })
        ≡ ok (record { occurrence_time = time; values = values })
  unfolding on_inner tag_eq
  inner-octets time [] ieee h stands =
      fold_each-octets ber (on_inner s) ((context_tag 0 false, time) ∷ []) _ (omega arith) stands
  inner-octets time (d ∷ values) ieee h stands =
      let variables : Bytes = each_octets child_octets (value_children (d ∷ values)) in
      let inside =
        child-Stands ((context_tag 0 false, time) ∷ []) (context_tag 2 true) variables []
          (Stands-small _ stands) in
      let each =
        fold_each-octets ber (on_variable s) (value_children (d ∷ values))
          (record { occurrence_time = time; values = [] }) (value_numbers (d ∷ values)) inside in
      let all =
        variables-octets (d ∷ values) (record { occurrence_time = time; values = [] }) ieee h
          (Stands-small _ inside) in
      fold_each-octets ber (on_inner s) ((context_tag 0 false, time) ∷ values_children (d ∷ values))
        _ (omega arith) stands
      ∙ rw (each, all) refl

  decode_entry-octets :
      (e : JournalEntry)
      → IsIeee s
      → IsEntry e
      → Stands (new (entry_content e)) (entry_content e)
      → decode_entry s (entry_content e) ≡ ok e
  unfolding decode_entry on_content tag_eq
  decode_entry-octets e ieee h stands =
      let inner : Bytes = each_octets child_octets (inner_children e) in
      let (r', read, s', _) =
        expect_into (new (entry_content e)) (context_tag 0 false) e.entry_id _ (omega arith)
          stands in
      let fuelled : length (each_octets child_octets (content_children e))
          ≤ length (entry_content e) =
        omega (
          arith,
          length-append (tlv_octets (context_tag 0 false) e.entry_id)
              (each_octets child_octets (content_children e)),
        ) in
      let inside : Stands (new inner) inner =
        ([], refl, Stands-fits r' (context_tag 2 true) inner [] s') in
      let loop =
        fold_all-octets ber (on_content s) (content_children e) (length (entry_content e)) r'
          (record { occurrence_time = []; values = [] }) (omega arith) fuelled s' in
      rw (read, loop, inner-octets e.occurrence_time e.values ieee h inside) refl

  read_entry_step :
      IsIeee s
      → (e : JournalEntry) (r : BerReader) (rest : Bytes) → IsEntry e
      → Stands r (entry_octets e ++ rest)
      → (r' : BerReader) × (read_entry s r ≡ ok (e, r')) × Stands r' rest
  unfolding read_entry
  read_entry_step ieee e r rest h stands =
      let (r', read, s', inside) =
        read_tlv_into r sequence_tag (entry_content e) rest (omega arith) stands in
      (r', rw (read, decode_entry-octets e ieee h inside) refl, s')

  abbrev pub page_octets : List JournalEntry → Bool → Bytes
  page_octets entries more =
      tlv_octets (context_tag 0 true) (each_octets entry_octets entries)
      ++ (tlv_octets (context_tag 1 false) (encode_bool more) ++ [])

  pub encode_response-Appends :
      (entries : List JournalEntry) (more : Bool)
      → Appends
          (encode_response s entries more)
          (tlv_octets read_journal (page_octets entries more))
  unfolding encode_response
  encode_response-Appends entries more = Appends-tlv read_journal _ _ (
      Appends-then _ _ _ _
        (Appends-tlv (context_tag 0 true) _ _
          (Appends-each (write_entry s) entry_octets write_entry-Appends entries))
        (Appends-last _ _ (Appends-boolean (context_tag 1 false) more)))

  pub decode_response-octets :
      (entries : List JournalEntry) (more : Bool)
      → IsIeee s
      → All IsEntry entries
      → length (page_octets entries more) < 2 ^ 64
      → decode_response s (record { tag = read_journal; content = page_octets entries more })
        ≡ ok (entries, more)
  unfolding decode_response expect_service tag_eq
  decode_response-octets entries more ieee h small =
      let list : Bytes = each_octets entry_octets entries in
      let (r₁, e₁, s₁, inside) =
        expect_into (new (page_octets entries more)) (context_tag 0 true) list _ (omega arith)
          ([], refl, small) in
      let e₂ =
        read_each-octets (read_entry s) entry_octets IsEntry (read_entry_step ieee)
          (λ e. tlv_octets_some sequence_tag _) entries h inside in
      let (_, e₃, _) =
        read_if_step r₁ (context_tag 1 false) (some (encode_bool more)) [] (omega arith) (inl refl)
          s₁ in
      rw (e₁, e₂, e₃, decode_bool-encode_bool more) refl

abbrev pub request_octets : Variable → Bytes
request_octets v =
    tlv_octets (context_tag 0 true) (specific_octets v)
    ++ (tlv_octets (context_tag 1 true) (tlv_octets (context_tag 0 false) (replicate 6 0))
        ++ (tlv_octets (context_tag 2 true) (tlv_octets (context_tag 0 false) (replicate 6 0xff))
            ++ []))

pub write_request-Appends :
    (v : Variable) → Appends (write_request v.0 v.1) (tlv_octets read_journal (request_octets v))
unfolding write_request
write_request-Appends (domain, item) = Appends-tlv read_journal _ _ (
    Appends-then _ _ _ _
      (Appends-tlv (context_tag 0 true) _ _ (write_domain_specific-Appends domain item))
      (Appends-then _ _ _ _
        (Appends-tlv (context_tag 1 true) _ _
          (Appends-octets (context_tag 0 false) (replicate 6 0)))
        (Appends-last _ _ (
          Appends-tlv (context_tag 2 true) _ _
            (Appends-octets (context_tag 0 false) (replicate 6 0xff))))))

pub decode_request-octets :
    (s : Std) (v : Variable)
    → IsVariable s v
    → length (request_octets v) < 2 ^ 64
    → decode_request s (record { tag = read_journal; content = request_octets v }) ≡ ok v
unfolding decode_request expect_service tag_eq
decode_request-octets s v h small =
    let (_, e, _, inside) =
      expect_into (new (request_octets v)) (context_tag 0 true) (specific_octets v) _ (omega arith)
        ([], refl, small) in
    rw e (read_domain_specific_lem s _ v [] h (Stands-last _ _ _ inside))
