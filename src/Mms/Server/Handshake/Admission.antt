-- ===== src/Mms/Server/Handshake/Admission.antt =====
-- The association that the client proposes, at the server.
use iec_61850_studio.Base.{
  ◌<◌, ◌^◌, [], ◌∷◌, ◌++◌, Option, none, some, length, ◌≡◌, refl, sym, subst, arith, append-nil,
}
use iec_61850_studio.Base.{bytes_eq}
use iec_61850_studio.Base.Maps.{contains}
use iec_61850_studio.Ber.Base128.{push_base128}
use iec_61850_studio.Ber.Primitives.{encode_oid, push_arcs}
use iec_61850_studio.Base.Result.{ok, err, ◌>>=◌}
use iec_61850_studio.Base.Words.{Bytes}
use iec_61850_studio.Transport.Error.{associate_rejected}
use iec_61850_studio.Ber.Nested.{tlv_octets_some}
use iec_61850_studio.Mms.Upper.Session.{
  ConnectSpdu, connect, negotiated_version, parse_connect, accept_with_version,
}
use iec_61850_studio.Mms.Upper.Session.Parameters.{parse_connect-connect}
use iec_61850_studio.Mms.Upper.Acse.{
  aarq_auth, parse_aarq, extract_auth_password, aare, aare_reject,
}
use iec_61850_studio.Mms.Upper.Acse.Association.{parse_aarq-aarq_auth}
use iec_61850_studio.Mms.Upper.Presentation.{
  ParsedCp, Negotiated, acceptance, verdict_of, negotiate_from, acse_as, mms_as, parse_cp,
  connect_cp, negotiate, connect_cpa_negotiated, selector,
}
use iec_61850_studio.Mms.Upper.Presentation.Connecting.{
  proposed, parse_cp-connect_cp, connect_cp-octets,
}
use iec_61850_studio.Mms.Server.Access.{Role, AuthPolicy, authorize}
use iec_61850_studio.Mms.Server.Handshake.{
  Association, Handshake, negotiation, association_of, handshake, with_role,
}
use iec_61850_studio.Mms.Initiate.{InitiateRequest}
use iec_61850_studio.Mms.Initiate.Request
use iec_61850_studio.Mms.Initiate.Response.{accept}
use iec_61850_studio.Mms.Initiate.Response
use iec_61850_studio.Mms.Initiate.RoundTrip.{RequestFits, decode_request-encode}

-- Both contexts accepted.
abbrev agreed : Negotiated
agreed = record { acse_id = some 1; mms_id = some 3; verdicts = acceptance ∷ acceptance ∷ [] }

negotiate-agreed : negotiate (proposed 1 acse_as ∷ proposed 3 mms_as ∷ []) ≡ agreed
unfolding negotiate negotiate_from verdict_of bytes_eq encode_oid push_arcs push_base128 contains
negotiate-agreed = refl

connect_cp_some : (aarq : Bytes) → 0 < length (connect_cp aarq)
connect_cp_some aarq =
    subst (λ (t : Bytes). 0 < length t) (sym (connect_cp-octets aarq)) (tlv_octets_some _ _)

-- The answer to the client: to the two contexts that it proposes, in the second version of the session.
abbrev pub answer_with : Bytes → Bytes
answer_with aare = accept_with_version (connect_cpa_negotiated aare agreed (some selector) 1) 2

abbrev pub client_association : Bytes → Association
client_association aarq = record { aarq = aarq; accept_of = answer_with; mms_ctx = 3 }

abbrev client_session : Bytes → ConnectSpdu
client_session cp = record {
  version = 0x02;
  requirements = some (0x00 ∷ 0x02 ∷ []);
  calling_selector = none;
  called_selector = none;
  user_data = cp;
}

abbrev client_cp : Bytes → ParsedCp
client_cp aarq = record {
  contexts = proposed 1 acse_as ∷ proposed 3 mms_as ∷ [];
  called_selector = some selector;
  inner_pdu = aarq;
}

negotiation-connect :
    (aarq : Bytes)
    → length (connect_cp aarq) < 65520
    → negotiation (connect (connect_cp aarq))
      ≡ ok (client_cp aarq, client_session (connect_cp aarq))
negotiation-connect aarq small =
    let fits : length (connect_cp aarq ++ []) < 2 ^ 64 =
      rw (append-nil (connect_cp aarq)) (omega (arith, small)) in
    let session : parse_connect (connect (connect_cp aarq))
        ≡ ok (client_session (connect_cp aarq)) =
      subst (λ (t : Bytes). parse_connect t ≡ ok (client_session (connect_cp aarq)))
        (append-nil (connect (connect_cp aarq)))
        (parse_connect-connect (connect_cp aarq) [] (connect_cp_some aarq) small) in
    let cp : parse_cp (connect_cp aarq) ≡ ok (client_cp aarq) =
      subst (λ (t : Bytes). parse_cp t ≡ ok (client_cp aarq)) (append-nil (connect_cp aarq))
        (parse_cp-connect_cp aarq [] fits) in
    rw (session, cp) refl

association-connect :
    (aarq : Bytes)
    → length (connect_cp aarq) < 65520
    → association_of (connect (connect_cp aarq)) (negotiation (connect (connect_cp aarq)))
      ≡ ok (client_association aarq)
unfolding negotiated_version
association-connect aarq small = rw (negotiation-connect aarq small, negotiate-agreed) refl

-- What a server sends to a client whose credentials have, or have not, a role, and what it then keeps.
abbrev pub answer_to : InitiateRequest → Option Role → Handshake
answer_to q none = record {
  sent = some (answer_with aare_reject);
  outcome = err associate_rejected;
}
answer_to q (some role) = record {
  sent = some (answer_with (aare (Response.encode (accept q))));
  outcome = ok (role, 3);
}

with_role-answer :
    (q : InitiateRequest) (aarq : Bytes) (role : Option Role)
    → (parse_aarq aarq >>= Request.decode) ≡ ok q
    → with_role (client_association aarq) role ≡ answer_to q role
with_role-answer q aarq none e = refl
with_role-answer q aarq (some role) e = rw e refl

-- A client proposes numbers of their widths, with or without a password, in a CP of less than 65,520 octets, and neither its AARQ
-- nor its initiate PDU has 2 ^ 64 octets. A server that TLS has not made refuse the peer gives it the role that the policy has for
-- the password and the common name, and context 3 for MMS, and sends an acceptance with the negotiated numbers; where the policy has no role, it
-- sends the rejecting AARE and ends the association.
pub handshake-connect :
    (verify : Bytes → Option Role) (policy : AuthPolicy) (cert_cn password : Option Bytes)
    (q : InitiateRequest)
    → RequestFits q
    → length (Request.encode q) < 2 ^ 64
    → length (aarq_auth (Request.encode q) password) < 2 ^ 64
    → length (connect_cp (aarq_auth (Request.encode q) password)) < 65520
    → handshake verify policy
        (ok cert_cn)
        (connect (connect_cp (aarq_auth (Request.encode q) password)))
      ≡ answer_to q (authorize verify policy password cert_cn)
unfolding handshake
handshake-connect verify policy cert_cn password q fits pdu_small aarq_small small =
    let pdu = Request.encode q in
    let aarq = aarq_auth pdu password in
    let aarq_fits : length (aarq_auth (Request.encode q) password ++ []) < 2 ^ 64 =
      rw (append-nil (aarq_auth (Request.encode q) password)) aarq_small in
    let pdu_fits : length (Request.encode q ++ []) < 2 ^ 64 =
      rw (append-nil (Request.encode q)) pdu_small in
    let (inner, credentials) =
      subst (λ (t : Bytes). (parse_aarq t ≡ ok pdu) × (extract_auth_password t ≡ password))
        (append-nil aarq) (parse_aarq-aarq_auth pdu password [] aarq_fits) in
    let initiate : Request.decode pdu ≡ ok q =
      subst (λ (t : Bytes). Request.decode t ≡ ok q) (append-nil pdu)
        (decode_request-encode q [] fits pdu_fits) in
    rw (association-connect aarq small, credentials)
      (with_role-answer q aarq (authorize verify policy password cert_cn)
        (rw (inner, initiate) refl))
