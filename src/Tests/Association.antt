-- ===== src/Tests/Association.antt =====
-- The association on concrete input.
use iec_61850_studio.Base.{
  ◌<◌, ◌≤◌, ◌^◌, List, [], ◌∷◌, ◌++◌, none, some, Bool, true, length, ◌≡◌, refl, arith, leb, ltb,
  ◌&&◌, if◌then◌else◌, bytes_eq, bytes_eq_iff,
}
use mathlib.Core.List.{map}
use iec_61850_studio.Base.Result.{ok, err, ◌>>=◌}
use iec_61850_studio.Base.Words.{Bytes}
use iec_61850_studio.Transport.Error.{associate_rejected}
use iec_61850_studio.Base.Maps.{contains}
use iec_61850_studio.Ber.Tag
use iec_61850_studio.Ber.Length.{encode_len}
use iec_61850_studio.Ber.Base128.{push_base128}
use iec_61850_studio.Ber.Primitives.{
  encode_integer, strip_integer, from_bits, bits_octets, encode_oid, push_arcs,
}
use iec_61850_studio.Ber.Writer.{
  tlv, integer, primitive, raw, bit_string, object_identifier, sequence, octet_string,
  visible_string,
}
use iec_61850_studio.Mms.Upper.Session.{
  push_li, si_connect, parse_connect, connect, no_parameters, with_user_data, data_pdu,
}
use iec_61850_studio.Mms.Upper.Session.Parameters.{
  Parameter, parameters_octets, on_parameters, parse_connect-parameters,
}
use iec_61850_studio.Mms.Upper.Acse.{aarq_auth, parse_aarq, extract_auth_password, parse_aare}
use iec_61850_studio.Mms.Upper.Acse.Association.{parse_aarq-aarq_auth}
use iec_61850_studio.Mms.Upper.Acse.Verdict.{answer, parse_aare-answer}
use iec_61850_studio.Mms.Upper.Presentation.{
  ProposedContext, negotiate, verdict_of, oid_content, acse_as, mms_as, ber_ts, connect_cp,
  user_data, extract_inner_pdu,
}
use iec_61850_studio.Mms.Upper.Presentation.Data.{extract_inner_pdu-data_pdu}
use iec_61850_studio.Mms.Upper.Presentation.Negotiation.{negotiate_lem, first_offer}
use iec_61850_studio.Mms.Initiate.{default_request}
use iec_61850_studio.Mms.Initiate.Request
use iec_61850_studio.Mms.Server.Access.{AuthPolicy, passwords, operator, permissions, authorize}
use iec_61850_studio.Mms.Server.Handshake.{handshake}
use iec_61850_studio.Mms.Server.Handshake.Admission.{answer_to, handshake-connect}
use iec_61850_studio.Mms.Token.{
  AccessToken, issue, encode_claims, verify, signed_parts, decode_claims, expired,
}
use iec_61850_studio.Mms.Token.Trust.{verify-issue, verify-Trusted, with_standard_role}
use iec_61850_studio.Tests.Codec.{halves}

abbrev secret : Bytes
secret = 115 ∷ 101 ∷ []

abbrev policy : AuthPolicy
policy = passwords ((secret, operator) ∷ [])

initiate_size : ltb (length (Request.encode default_request)) (2 ^ 64) ≡ true
unfolding Request.encode tlv Tag.encode integer primitive encode_len encode_integer strip_integer
    bit_string from_bits bits_octets
initiate_size = refl

aarq_size : ltb (length (aarq_auth (Request.encode default_request) (some secret))) (2 ^ 64) ≡ true
unfolding Request.encode aarq_auth tlv Tag.encode integer primitive encode_len encode_integer
    strip_integer bit_string from_bits bits_octets object_identifier encode_oid push_arcs
    push_base128 raw
aarq_size = refl

cp_size :
    ltb (length (connect_cp (aarq_auth (Request.encode default_request) (some secret)))) 65520
    ≡ true
unfolding Request.encode aarq_auth connect_cp user_data sequence octet_string tlv Tag.encode integer
    primitive encode_len encode_integer strip_integer bit_string from_bits bits_octets
    object_identifier encode_oid push_arcs push_base128 raw
cp_size = refl

handshake-connect_example :
    handshake
      (λ _. none)
      policy
      (ok none)
      (connect (connect_cp (aarq_auth (Request.encode default_request) (some secret))))
    ≡ answer_to default_request (authorize (λ _. none) policy (some secret) none)
handshake-connect_example =
    handshake-connect (λ _. none) policy none (some secret) default_request
      (omega arith, omega arith, omega arith, omega arith) (ground (arith, initiate_size))
      (ground (arith, aarq_size)) (ground (arith, cp_size))

abbrev offers : List ProposedContext
offers =
    record { id = 5; abstract_syntax = oid_content mms_as; transfer_syntaxes = [] }
    ∷ record {
      id = 7;
      abstract_syntax = oid_content mms_as;
      transfer_syntaxes = oid_content ber_ts ∷ [];
    }
    ∷ []

negotiate_lem_example : negotiate offers ≡ record {
  acse_id = first_offer (oid_content acse_as) offers;
  mms_id = first_offer (oid_content mms_as) offers;
  verdicts = map verdict_of offers;
}
negotiate_lem_example = negotiate_lem offers

-- The first context of MMS lacks BER, so that the second one is taken.
offers_mms : first_offer (oid_content mms_as) offers ≡ some 7
unfolding bytes_eq encode_oid push_arcs push_base128 contains
offers_mms = refl

abbrev version_one : List Parameter
version_one = (0x05, 0x16 ∷ 1 ∷ 1 ∷ []) ∷ (0x34, 0xCC ∷ 0xDD ∷ []) ∷ (0xC1, 0x31 ∷ 0 ∷ []) ∷ []

version_one_size : ltb (length (parameters_octets version_one)) (2 ^ 16) ≡ true
unfolding push_li
version_one_size = refl

parse_connect-parameters_example :
    parse_connect (
      push_li (si_connect ∷ []) (length (parameters_octets version_one))
      ++ (parameters_octets version_one ++ 9 ∷ []))
    ≡ on_parameters version_one no_parameters >>= with_user_data
parse_connect-parameters_example =
    parse_connect-parameters version_one (9 ∷ []) (ground (arith, version_one_size))

sent_size : ltb (length (data_pdu (user_data (0xA0 ∷ 0 ∷ []) 3) ++ 1 ∷ [])) (2 ^ 64) ≡ true
unfolding data_pdu user_data sequence tlv Tag.encode integer primitive encode_len encode_integer
    strip_integer bit_string from_bits bits_octets object_identifier encode_oid push_arcs
    push_base128 raw
sent_size = refl

extract_inner_pdu-data_pdu_example :
    extract_inner_pdu (data_pdu (user_data (0xA0 ∷ 0 ∷ []) 3) ++ 1 ∷ []) ≡ ok (0xA0 ∷ 0 ∷ [])
extract_inner_pdu-data_pdu_example =
    extract_inner_pdu-data_pdu (0xA0 ∷ 0 ∷ []) (1 ∷ []) 3 (ground (arith, sent_size))

secret_size : ltb (length (aarq_auth (0xA8 ∷ 0 ∷ []) (some secret) ++ 1 ∷ [])) (2 ^ 64) ≡ true
unfolding aarq_auth tlv Tag.encode integer primitive encode_len encode_integer strip_integer
    bit_string from_bits bits_octets object_identifier encode_oid push_arcs push_base128 raw
secret_size = refl

parse_aarq-aarq_auth_example :
    (parse_aarq (aarq_auth (0xA8 ∷ 0 ∷ []) (some secret) ++ 1 ∷ []) ≡ ok (0xA8 ∷ 0 ∷ []))
    × (extract_auth_password (aarq_auth (0xA8 ∷ 0 ∷ []) (some secret) ++ 1 ∷ []) ≡ some secret)
parse_aarq-aarq_auth_example =
    parse_aarq-aarq_auth (0xA8 ∷ 0 ∷ []) (some secret) (1 ∷ []) (ground (arith, secret_size))

-- A rejection that carries a PDU all the same.
answer_size : ltb (length (answer 1 6 (0xA9 ∷ 0 ∷ []) ++ 1 ∷ [])) (2 ^ 64) ≡ true
unfolding tlv Tag.encode integer primitive encode_len encode_integer strip_integer bit_string
    from_bits bits_octets object_identifier encode_oid push_arcs push_base128 raw
answer_size = refl

parse_aare-answer_example :
    parse_aare (answer 1 6 (0xA9 ∷ 0 ∷ []) ++ 1 ∷ []) ≡ err associate_rejected
parse_aare-answer_example =
    parse_aare-answer 1 6 (0xA9 ∷ 0 ∷ []) (1 ∷ []) (omega arith) (ground (arith, answer_size))

abbrev badge : AccessToken
badge = record {
  subject = 111 ∷ [];
  role = operator;
  issuer = 65 ∷ [];
  not_before = 1000;
  not_after = 2000;
}

-- An authority whose signature is the length of the claims.
abbrev sign_length : Bytes → Bytes
sign_length claims = length claims ∷ []

abbrev check_length : Bytes → Bytes → Bool
check_length claims signature = bytes_eq signature (length claims ∷ [])

badge_size : ltb (length (issue sign_length badge ++ 1 ∷ [])) (2 ^ 64) ≡ true
unfolding issue encode_claims permissions octet_string visible_string tlv Tag.encode integer
    primitive encode_len encode_integer strip_integer bit_string from_bits bits_octets
badge_size = refl

verify-issue_example : verify halves check_length (issue sign_length badge ++ 1 ∷ []) 1500 ≡ (
    if leb badge.not_before 1500 && ltb 1500 badge.not_after
    then ok (with_standard_role badge)
    else err expired)
unfolding permissions
verify-issue_example =
    verify-issue halves sign_length check_length badge (1 ∷ []) 1500
      (λ claims. (bytes_eq_iff (length claims ∷ []) (length claims ∷ [])).1 refl)
      (refl, refl, omega arith, omega arith, omega arith) (ground (arith, badge_size))

verify-Trusted_example :
    (claims : Bytes) × (signature : Bytes) × (signed_parts (issue sign_length badge ++ 1 ∷ [])
      ≡ ok (claims, signature))
    × (check_length claims signature ≡ true)
    × (decode_claims halves claims ≡ ok (with_standard_role badge))
    × (1000 ≤ 1500)
    × (1500 < 2000)
verify-Trusted_example =
    verify-Trusted halves check_length (issue sign_length badge ++ 1 ∷ []) 1500
      (with_standard_role badge) verify-issue_example
