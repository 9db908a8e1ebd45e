-- ===== src/Mms/Initiate.antt =====
-- crates/iec61850-mms/src/mms/initiate.rs: the PDUs that begin an association. An `i32`, like an `i64`, is its bit pattern.
pub mod Request
pub mod Response
pub mod RoundTrip
use iec_61850_studio.Base.{
  ℕ, ◌+◌, ◌-◌, ◌%◌, ◌^◌, min, List, [], ◌∷◌, ◌++◌, replicate, Option, none, some, Bool, true, false,
  ltb, not, if◌then◌else◌,
}
use mathlib.Core.Option
use iec_61850_studio.Base.Result.{ok, err, ◌>>=◌}
use iec_61850_studio.Base.Words.{Bytes}
use iec_61850_studio.Ber.Error.{Tag}
use iec_61850_studio.Ber.Tag.{tag_eq}
use iec_61850_studio.Ber.Primitives.{BitString, from_bits, encode_integer, decode_integer}
use iec_61850_studio.Ber.Reader.{BerReader, new, reader, read_tlv, expect, read_if}
use iec_61850_studio.Ber.Writer.{BerWriter, tlv, integer, bit_string, octet_string_if}
use iec_61850_studio.Transport.Error.{MmsResult, associate_rejected, unexpected_pdu}
use iec_61850_studio.Mms.Pdu.{context_tag, from_ber, initiate_request}

-- `INITIATE_RESPONSE` and `INITIATE_ERROR` of `mmspdu`
abbrev pub initiate_response : Tag
initiate_response = context_tag 9 true

abbrev pub initiate_error : Tag
initiate_error = context_tag 10 true

pub record InitiateRequest : Type 0 where
  pub local_detail : ℕ
  pub max_serv_out_calling : ℕ
  pub max_serv_out_called : ℕ
  pub nesting_level : ℕ

abbrev pub default_request : InitiateRequest
default_request = record {
  local_detail = 65000;
  max_serv_out_calling = 10;
  max_serv_out_called = 10;
  nesting_level = 10;
}

abbrev pub proposed_version : ℕ
proposed_version = 1

-- Bits 0 to 4 and 7 of eleven.
abbrev pub proposed_parameter_cbb : BitString
proposed_parameter_cbb =
    from_bits (true ∷ true ∷ true ∷ true ∷ true ∷ false ∷ false ∷ true ∷ false ∷ false ∷ false ∷ [])

-- Bits 1, 2 and 4 of 85.
abbrev pub services_supported_calling : BitString
services_supported_calling = from_bits (false ∷ true ∷ true ∷ false ∷ true ∷ replicate 80 false)

-- `v as i64` of an `i32`, and `v as i32` of an `i64`.
abbrev pub widen : ℕ → ℕ
widen v = if ltb v (2 ^ 31) then v else v + (2 ^ 64 - 2 ^ 32)

abbrev pub narrow : ℕ → ℕ
narrow v = v % 2 ^ 32

abbrev pub write_detail : ℕ → BerWriter → BerWriter
write_detail version w = tlv w (context_tag 4 true) λ b.
    bit_string
      (bit_string (integer b (context_tag 0 false) version) (context_tag 1 false)
        proposed_parameter_cbb)
      (context_tag 2 false) services_supported_calling

abbrev pub or_zero : Option ℕ → ℕ
or_zero none = 0
or_zero (some v) = v

unfoldable pub read_int : BerReader → Tag → MmsResult (ℕ × BerReader)
read_int r tag = do (c, r') ← from_ber (expect r tag); v ← from_ber (decode_integer c); ok (v, r')

abbrev pub decode_some : Option Bytes → MmsResult (Option ℕ)
decode_some none = ok none
decode_some (some c) = do v ← from_ber (decode_integer c); ok (some v)

unfoldable pub read_opt_int : BerReader → Tag → MmsResult (Option ℕ × BerReader)
read_opt_int r tag = do (c, r') ← from_ber (read_if r tag); v ← decode_some c; ok (v, r')

pub record InitiateResponse : Type 0 where
  pub local_detail_called : Option ℕ
  pub max_serv_out_calling : ℕ
  pub max_serv_out_called : ℕ
  pub nesting_level : Option ℕ
  pub version : ℕ
