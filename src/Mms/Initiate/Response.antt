-- ===== src/Mms/Initiate/Response.antt =====
-- crates/iec61850-mms/src/mms/initiate.rs: what the server accepts.
use iec_61850_studio.Base.{ℕ, ◌%◌, ◌^◌, min, [], some, true, false, not, if◌then◌else◌}
use mathlib.Core.Option
use iec_61850_studio.Base.Result.{ok, err, ◌>>=◌}
use iec_61850_studio.Base.Words.{Bytes}
use iec_61850_studio.Ber.Tag.{tag_eq}
use iec_61850_studio.Ber.Primitives.{encode_integer}
use iec_61850_studio.Ber.Reader.{BerReader, new, reader, read_tlv, expect}
use iec_61850_studio.Ber.Writer.{tlv, integer, octet_string_if}
use iec_61850_studio.Transport.Error.{MmsResult, associate_rejected, unexpected_pdu}
use iec_61850_studio.Mms.Pdu.{context_tag, from_ber}
use iec_61850_studio.Mms.Initiate.{
  InitiateRequest, InitiateResponse, initiate_response, initiate_error, proposed_version, widen,
  narrow, write_detail, read_int, read_opt_int,
}

unfoldable pub accept : InitiateRequest → InitiateResponse
accept q = record {
  local_detail_called = some 65000;
  max_serv_out_calling = min q.max_serv_out_calling 10;
  max_serv_out_called = min q.max_serv_out_called 10;
  nesting_level = some (min q.nesting_level 10);
  version = proposed_version;
}

unfoldable pub encode : InitiateResponse → Bytes
encode p = tlv [] initiate_response λ w₀.
    let w₁ =
      octet_string_if w₀ (context_tag 0 false)
        (Option.map (λ (v : ℕ). encode_integer (widen v)) p.local_detail_called) in
    let w₂ = integer w₁ (context_tag 1 false) p.max_serv_out_calling in
    let w₃ = integer w₂ (context_tag 2 false) p.max_serv_out_called in
    let w₄ = octet_string_if w₃ (context_tag 3 false) (Option.map encode_integer p.nesting_level) in
    write_detail p.version w₄

-- The fields behind an accepted tag.
abbrev pub read_fields : BerReader → MmsResult InitiateResponse
read_fields r₀ = do
  (local_detail, r₁) ← read_opt_int r₀ (context_tag 0 false)
  (max_serv_out_calling, r₂) ← read_int r₁ (context_tag 1 false)
  (max_serv_out_called, r₃) ← read_int r₂ (context_tag 2 false)
  (nesting_level, r₄) ← read_opt_int r₃ (context_tag 3 false)
  (detail, _) ← from_ber (expect r₄ (context_tag 4 true))
  (version, _) ← read_int (new detail) (context_tag 0 false)
  ok (record {
    local_detail_called = Option.map narrow local_detail;
    max_serv_out_calling = max_serv_out_calling % 2 ^ 16;
    max_serv_out_called = max_serv_out_called % 2 ^ 16;
    nesting_level = Option.map (λ (v : ℕ). v % 2 ^ 8) nesting_level;
    version = version;
  })

unfoldable pub decode : Bytes → MmsResult InitiateResponse
decode pdu = do
  (outer, _) ← from_ber (read_tlv (new pdu))
  (if tag_eq outer.tag initiate_error
      then err associate_rejected
      else if not (tag_eq outer.tag initiate_response)
      then err unexpected_pdu
      else read_fields (reader outer))
