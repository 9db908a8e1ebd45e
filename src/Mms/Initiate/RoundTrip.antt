-- ===== src/Mms/Initiate/RoundTrip.antt =====
-- The parameters that either side writes, the other side reads.
use iec_61850_studio.Base.{
  ℕ, ◌<◌, ◌%◌, ◌^◌, [], ◌∷◌, ◌++◌, Option, none, some, true, false, length, ◌≡◌, refl, ap, ◌∙◌,
  arith, inr,
}
use mathlib.Core.Option
use iec_61850_studio.Base.Result.{ok}
use iec_61850_studio.Base.Words.{Bytes}
use iec_61850_studio.Ber.Tag.{tag_eq}
use iec_61850_studio.Ber.Primitives.{BitString, encode_integer}
use iec_61850_studio.Ber.Primitives.Integer.{decode_integer-encode_integer}
use iec_61850_studio.Ber.Reader.{BerReader}
use iec_61850_studio.Ber.Writer.{BerWriter}
use iec_61850_studio.Ber.Writer.Laws.{tlv_octets}
use iec_61850_studio.Ber.Fields.{
  Stands, Follows, option_octets, read_if_step, octet_string_if-append,
}
use iec_61850_studio.Ber.Nested.{
  Appends, Appends-then, Appends-tlv, Appends-integer, Appends-bits, Appends-last, expect_into,
}
use iec_61850_studio.Mms.Pdu.{context_tag, initiate_request}
use iec_61850_studio.Mms.Upper.Acse.Association.{read_outer}
use iec_61850_studio.Mms.Initiate.Request
use iec_61850_studio.Mms.Initiate.Response
use iec_61850_studio.Mms.Initiate.{
  InitiateRequest, InitiateResponse, initiate_response, proposed_version, proposed_parameter_cbb,
  services_supported_calling, widen, narrow, write_detail, read_int, decode_some, read_opt_int,
}

abbrev bits_content : BitString → Bytes
bits_content bits = bits.unused_bits ∷ bits.bytes

abbrev detail_octets : ℕ → Bytes
detail_octets version =
    tlv_octets (context_tag 0 false) (encode_integer version)
    ++ (tlv_octets (context_tag 1 false) (bits_content proposed_parameter_cbb)
        ++ (tlv_octets (context_tag 2 false) (bits_content services_supported_calling) ++ []))

write_detail-Appends :
    (version : ℕ)
    → Appends (write_detail version) (tlv_octets (context_tag 4 true) (detail_octets version))
write_detail-Appends version = Appends-tlv (context_tag 4 true) _ _ (
    Appends-then _ _ _ _ (Appends-integer (context_tag 0 false) version) (
      Appends-then _ _ _ _ (Appends-bits (context_tag 1 false) proposed_parameter_cbb)
        (Appends-last _ _ (Appends-bits (context_tag 2 false) services_supported_calling))))

-- Readers of a number, on what was written.
read_int_step :
    (r : BerReader) (n v : ℕ) (rest : Bytes)
    → n < 2 ^ 32
    → v < 2 ^ 64
    → Stands r (tlv_octets (context_tag n false) (encode_integer v) ++ rest)
    → (r' : BerReader) × (read_int r (context_tag n false) ≡ ok (v, r')) × Stands r' rest
unfolding read_int
read_int_step r n v rest number small stands =
    let (r', e, stands', _) =
      expect_into r (context_tag n false) (encode_integer v) rest number stands in
    (r', rw (e, decode_integer-encode_integer v small) refl, stands')

abbrev OnSome : (ℕ → Type 0) → Option ℕ → Type 0
OnSome P none = Unit {0}
OnSome P (some v) = P v

decode_some-map :
    (o : Option ℕ) → OnSome (λ v. v < 2 ^ 64) o → decode_some (Option.map encode_integer o) ≡ ok o
decode_some-map none h = refl
decode_some-map (some v) h = rw (decode_integer-encode_integer v h) refl

read_opt_int_step :
    (r : BerReader) (n : ℕ) (o : Option ℕ) (rest : Bytes)
    → n < 2 ^ 32
    → OnSome (λ v. v < 2 ^ 64) o
    → Follows (context_tag n false) rest
    → Stands r (option_octets (context_tag n false) (Option.map encode_integer o) ++ rest)
    → (r' : BerReader) × (read_opt_int r (context_tag n false) ≡ ok (o, r')) × Stands r' rest
unfolding read_opt_int
read_opt_int_step r n o rest number small follows stands =
    let (r', e, stands') =
      read_if_step r (context_tag n false) (Option.map encode_integer o) rest number follows
        stands in
    (r', rw (e, decode_some-map o small) refl, stands')

narrow-widen : (v : ℕ) → v < 2 ^ 32 → (narrow (widen v) ≡ v) × (widen v < 2 ^ 64)
narrow-widen v h = ground arith

abbrev request_octets : InitiateRequest → Bytes
request_octets q =
    tlv_octets (context_tag 0 false) (encode_integer (widen q.local_detail))
    ++ (tlv_octets (context_tag 1 false) (encode_integer q.max_serv_out_calling)
        ++ (tlv_octets (context_tag 2 false) (encode_integer q.max_serv_out_called)
            ++ (tlv_octets (context_tag 3 false) (encode_integer q.nesting_level)
                ++ (tlv_octets (context_tag 4 true) (detail_octets proposed_version) ++ []))))

encode-request_octets :
    (q : InitiateRequest) → Request.encode q ≡ tlv_octets initiate_request (request_octets q)
unfolding Request.encode
encode-request_octets q =
    Appends-tlv initiate_request _ _
      (Appends-then _ _ _ _ (Appends-integer (context_tag 0 false) (widen q.local_detail)) (
        Appends-then _ _ _ _ (Appends-integer (context_tag 1 false) q.max_serv_out_calling) (
          Appends-then _ _ _ _ (Appends-integer (context_tag 2 false) q.max_serv_out_called) (
            Appends-then _ _ _ _ (Appends-integer (context_tag 3 false) q.nesting_level)
              (Appends-last _ _ (write_detail-Appends proposed_version))))))
      []

abbrev pub RequestFits : InitiateRequest → Type 0
RequestFits q =
    (q.local_detail < 2 ^ 32)
    × (q.max_serv_out_calling < 2 ^ 16)
    × (q.max_serv_out_called < 2 ^ 16)
    × (q.nesting_level < 2 ^ 8)

read_fields-octets :
    (q : InitiateRequest) (r : BerReader)
    → RequestFits q
    → Stands r (request_octets q)
    → Request.read_fields r ≡ ok q
unfolding tag_eq
read_fields-octets q r (detail, calling, called, nesting) stands =
    let (narrowed, wide) = narrow-widen q.local_detail detail in
    let calling_same : q.max_serv_out_calling % 2 ^ 16 ≡ q.max_serv_out_calling =
      omega (arith, calling) in
    let called_same : q.max_serv_out_called % 2 ^ 16 ≡ q.max_serv_out_called =
      omega (arith, called) in
    let nesting_same : q.nesting_level % 2 ^ 8 ≡ q.nesting_level = omega (arith, nesting) in
    let (r₁, e₁, s₁) =
      read_opt_int_step r 0 (some (widen q.local_detail)) _ (omega arith) wide
        (inr (_, _, _, refl, refl, omega arith)) stands in
    let (r₂, e₂, s₂) =
      read_int_step r₁ 1 q.max_serv_out_calling _ (omega arith) (omega (arith, calling)) s₁ in
    let (r₃, e₃, s₃) =
      read_int_step r₂ 2 q.max_serv_out_called _ (omega arith) (omega (arith, called)) s₂ in
    let (_, e₄, _) =
      read_opt_int_step r₃ 3 (some q.nesting_level) _ (omega arith) (omega (arith, nesting))
        (inr (_, _, _, refl, refl, omega arith)) s₃ in
    rw (e₁, e₂, e₃, e₄, narrowed, calling_same, called_same, nesting_same) refl

-- What a server reads of a proposal is what the client proposed, whatever follows the PDU, when each of
-- the numbers is of its width.
pub decode_request-encode :
    (q : InitiateRequest) (rest : Bytes)
    → RequestFits q
    → length (Request.encode q ++ rest) < 2 ^ 64
    → Request.decode (Request.encode q ++ rest) ≡ ok q
unfolding Request.decode tag_eq
decode_request-encode q rest fits small =
    let whole = encode-request_octets q in
    let (_, e, inside) =
      read_outer initiate_request (request_octets q) rest (omega arith) (rw whole at small) in
    rw (whole, e) (read_fields-octets q _ fits inside)

abbrev pub ResponseFits : InitiateResponse → Type 0
ResponseFits p =
    OnSome (λ v. v < 2 ^ 32) p.local_detail_called
    × (p.max_serv_out_calling < 2 ^ 16)
    × (p.max_serv_out_called < 2 ^ 16)
    × OnSome (λ v. v < 2 ^ 8) p.nesting_level
    × (p.version < 2 ^ 64)

abbrev response_octets : InitiateResponse → Bytes
response_octets p =
    option_octets (context_tag 0 false)
      (Option.map encode_integer (Option.map widen p.local_detail_called))
    ++ (tlv_octets (context_tag 1 false) (encode_integer p.max_serv_out_calling)
        ++ (tlv_octets (context_tag 2 false) (encode_integer p.max_serv_out_called)
            ++ (option_octets (context_tag 3 false) (Option.map encode_integer p.nesting_level)
                ++ (tlv_octets (context_tag 4 true) (detail_octets p.version) ++ []))))

encode_widened :
    (o : Option ℕ)
    → Option.map (λ (v : ℕ). encode_integer (widen v)) o
      ≡ Option.map encode_integer (Option.map widen o)
encode_widened none = refl
encode_widened (some v) = refl

encode-response_octets :
    (p : InitiateResponse) → Response.encode p ≡ tlv_octets initiate_response (response_octets p)
unfolding Response.encode
encode-response_octets p =
    let body =
      Appends-then _ _ _ _
        (λ (w : BerWriter).
          octet_string_if-append w (context_tag 0 false)
            (Option.map (λ (v : ℕ). encode_integer (widen v)) p.local_detail_called))
        (Appends-then _ _ _ _ (Appends-integer (context_tag 1 false) p.max_serv_out_calling) (
          Appends-then _ _ _ _ (Appends-integer (context_tag 2 false) p.max_serv_out_called) (
            Appends-then _ _ _ _
              (λ (w : BerWriter).
                octet_string_if-append w (context_tag 3 false)
                  (Option.map encode_integer p.nesting_level))
              (Appends-last _ _ (write_detail-Appends p.version))))) in
    Appends-tlv initiate_response _ _ body []
    ∙ ap
        (λ (o : Option Bytes). tlv_octets initiate_response (
          option_octets (context_tag 0 false) o
          ++ (tlv_octets (context_tag 1 false) (encode_integer p.max_serv_out_calling)
              ++ (tlv_octets (context_tag 2 false) (encode_integer p.max_serv_out_called)
                  ++ (option_octets (context_tag 3 false)
                        (Option.map encode_integer p.nesting_level)
                      ++ (tlv_octets (context_tag 4 true) (detail_octets p.version) ++ []))))))
        (encode_widened p.local_detail_called)

detail_wide :
    (o : Option ℕ) → OnSome (λ v. v < 2 ^ 32) o → OnSome (λ v. v < 2 ^ 64) (Option.map widen o)
detail_wide none h = h
detail_wide (some v) h = let (_, wide) = narrow-widen v h in wide

detail_same :
    (o : Option ℕ) → OnSome (λ v. v < 2 ^ 32) o → Option.map narrow (Option.map widen o) ≡ o
detail_same none h = refl
detail_same (some v) h = let (same, _) = narrow-widen v h in ap some same

nesting_wide : (o : Option ℕ) → OnSome (λ v. v < 2 ^ 8) o → OnSome (λ v. v < 2 ^ 64) o
nesting_wide none h = h
nesting_wide (some v) h = omega (arith, h)

nesting_kept : (o : Option ℕ) → OnSome (λ v. v < 2 ^ 8) o → Option.map (λ (v : ℕ). v % 2 ^ 8) o ≡ o
nesting_kept none h = refl
nesting_kept (some v) h = ap some (omega (arith, h))

read_fields-response_octets :
    (p : InitiateResponse) (r : BerReader)
    → ResponseFits p
    → Stands r (response_octets p)
    → Response.read_fields r ≡ ok p
unfolding tag_eq
read_fields-response_octets p r (detail, calling, called, nesting, version) stands =
    let calling_same : p.max_serv_out_calling % 2 ^ 16 ≡ p.max_serv_out_calling =
      omega (arith, calling) in
    let called_same : p.max_serv_out_called % 2 ^ 16 ≡ p.max_serv_out_called =
      omega (arith, called) in
    let nesting_same = nesting_kept p.nesting_level nesting in
    let detail_kept = detail_same p.local_detail_called detail in
    let (r₁, e₁, s₁) =
      read_opt_int_step r 0 (Option.map widen p.local_detail_called) _ (omega arith)
        (detail_wide p.local_detail_called detail) (inr (_, _, _, refl, refl, omega arith))
        stands in
    let (r₂, e₂, s₂) =
      read_int_step r₁ 1 p.max_serv_out_calling _ (omega arith) (omega (arith, calling)) s₁ in
    let (r₃, e₃, s₃) =
      read_int_step r₂ 2 p.max_serv_out_called _ (omega arith) (omega (arith, called)) s₂ in
    let (r₄, e₄, s₄) =
      read_opt_int_step r₃ 3 p.nesting_level _ (omega arith) (nesting_wide p.nesting_level nesting)
        (inr (_, _, _, refl, refl, omega arith)) s₃ in
    let (_, e₅, _, inner) =
      expect_into r₄ (context_tag 4 true) (detail_octets p.version) [] (omega arith) s₄ in
    let (_, e₆, _) = read_int_step _ 0 p.version _ (omega arith) version inner in
    rw (e₁, e₂, e₃, e₄, e₅, e₆, detail_kept, calling_same, called_same, nesting_same) refl

-- What a client reads of an acceptance is what the server accepted, whatever follows the PDU, when each of
-- the numbers is of its width.
pub decode_response-encode :
    (p : InitiateResponse) (rest : Bytes)
    → ResponseFits p
    → length (Response.encode p ++ rest) < 2 ^ 64
    → Response.decode (Response.encode p ++ rest) ≡ ok p
unfolding Response.decode tag_eq
decode_response-encode p rest fits small =
    let whole = encode-response_octets p in
    let (_, e, inside) =
      read_outer initiate_response (response_octets p) rest (omega arith) (rw whole at small) in
    rw (whole, e) (read_fields-response_octets p _ fits inside)
