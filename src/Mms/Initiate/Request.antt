-- ===== src/Mms/Initiate/Request.antt =====
-- crates/iec61850-mms/src/mms/initiate.rs: what the client proposes.
use iec_61850_studio.Base.{◌%◌, ◌^◌, [], false, not, if◌then◌else◌}
use iec_61850_studio.Base.Result.{ok, err, ◌>>=◌}
use iec_61850_studio.Base.Words.{Bytes}
use iec_61850_studio.Ber.Tag.{tag_eq}
use iec_61850_studio.Ber.Reader.{BerReader, new, reader, read_tlv}
use iec_61850_studio.Ber.Writer.{tlv, integer}
use iec_61850_studio.Transport.Error.{MmsResult, unexpected_pdu}
use iec_61850_studio.Mms.Pdu.{context_tag, from_ber, initiate_request}
use iec_61850_studio.Mms.Initiate.{
  InitiateRequest, proposed_version, widen, narrow, write_detail, or_zero, read_int, read_opt_int,
}

unfoldable pub encode : InitiateRequest → Bytes
encode q = tlv [] initiate_request λ w₀.
    let w₁ = integer w₀ (context_tag 0 false) (widen q.local_detail) in
    let w₂ = integer w₁ (context_tag 1 false) q.max_serv_out_calling in
    let w₃ = integer w₂ (context_tag 2 false) q.max_serv_out_called in
    let w₄ = integer w₃ (context_tag 3 false) q.nesting_level in write_detail proposed_version w₄

-- The fields behind an accepted tag.
abbrev pub read_fields : BerReader → MmsResult InitiateRequest
read_fields r₀ = do
  (local_detail, r₁) ← read_opt_int r₀ (context_tag 0 false)
  (max_serv_out_calling, r₂) ← read_int r₁ (context_tag 1 false)
  (max_serv_out_called, r₃) ← read_int r₂ (context_tag 2 false)
  (nesting_level, _) ← read_opt_int r₃ (context_tag 3 false)
  ok (record {
    local_detail = narrow (or_zero local_detail);
    max_serv_out_calling = max_serv_out_calling % 2 ^ 16;
    max_serv_out_called = max_serv_out_called % 2 ^ 16;
    nesting_level = or_zero nesting_level % 2 ^ 8;
  })

unfoldable pub decode : Bytes → MmsResult InitiateRequest
decode pdu = do
  (outer, _) ← from_ber (read_tlv (new pdu))
  (if not (tag_eq outer.tag initiate_request)
      then err unexpected_pdu
      else read_fields (reader outer))
