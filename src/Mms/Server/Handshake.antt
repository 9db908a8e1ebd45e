-- ===== src/Mms/Server/Handshake.antt =====
-- crates/iec61850-mms/src/server.rs: an association, from the first data of a connection to the answer
-- that is sent and the role and MMS context that the connection then has.
pub mod Admission
use iec_61850_studio.Base.{ℕ, List, Option, none, some}
use iec_61850_studio.Base.Result.{ok, err, ◌>>=◌}
use iec_61850_studio.Base.Words.{Bytes}
use iec_61850_studio.Transport.Error.{MmsError, MmsResult, associate_rejected}
use iec_61850_studio.Mms.Upper.Session.{
  ConnectSpdu, parse_connect, negotiated_version, accept_with_version,
}
use iec_61850_studio.Mms.Upper.Session
use iec_61850_studio.Mms.Upper.Acse.{parse_aarq, extract_auth_password, aare, aare_reject}
use iec_61850_studio.Mms.Upper.Presentation.{
  ParsedCp, Negotiated, parse_cp, negotiate, connect_cpa, connect_cpa_negotiated, extract_inner_pdu,
  mms_context_id,
}
use iec_61850_studio.Mms.Server.Access.{Role, AuthPolicy, authorize}
use iec_61850_studio.Mms.Initiate.{InitiateRequest}
use iec_61850_studio.Mms.Initiate.Request
use iec_61850_studio.Mms.Initiate.Response.{accept}
use iec_61850_studio.Mms.Initiate.Response

-- `(aarq, accept_of, mms_ctx)`
pub record Association : Type 0 where
  pub aarq : Bytes
  pub accept_of : Bytes → Bytes
  pub mms_ctx : ℕ

-- The TSDU that is sent, and the value of the block.
pub record Handshake : Type 0 where
  pub sent : Option Bytes
  pub outcome : MmsResult (Role × ℕ)

abbrev pub negotiation : Bytes → MmsResult (ParsedCp × ConnectSpdu)
negotiation assoc = do sess ← parse_connect assoc; cp ← parse_cp sess.user_data; ok (cp, sess)

-- The answer to a CP with both contexts, and the refusal of another.
abbrev pub with_contexts :
    Negotiated → Option ℕ → Option ℕ → ParsedCp → ConnectSpdu → MmsResult Association
with_contexts neg (some acse_id) (some mms_id) cp sess = ok (record {
  aarq = cp.inner_pdu;
  accept_of = λ aare.
      accept_with_version (connect_cpa_negotiated aare neg cp.called_selector acse_id)
        (negotiated_version sess);
  mms_ctx = mms_id;
})
with_contexts neg (some acse_id) none cp sess = err associate_rejected
with_contexts neg none mms_id cp sess = err associate_rejected

abbrev pub association_of : Bytes → MmsResult (ParsedCp × ConnectSpdu) → MmsResult Association
association_of assoc (ok (cp, sess)) =
    let neg = negotiate cp.contexts in with_contexts neg neg.acse_id neg.mms_id cp sess
association_of assoc (err _) = do
  aarq ← extract_inner_pdu assoc
  ok (record {
    aarq = aarq;
    accept_of = λ aare. Session.accept (connect_cpa aare);
    mms_ctx = mms_context_id;
  })

abbrev pub rejected : Association → Handshake
rejected a = record { sent = some (a.accept_of aare_reject); outcome = err associate_rejected }

abbrev pub initiated : Association → Role → MmsResult InitiateRequest → Handshake
initiated a role (err e) = record { sent = none; outcome = err e }
initiated a role (ok req) = record {
  sent = some (a.accept_of (aare (Response.encode (accept req))));
  outcome = ok (role, a.mms_ctx);
}

abbrev pub with_role : Association → Option Role → Handshake
with_role a none = rejected a
with_role a (some role) = initiated a role (parse_aarq a.aarq >>= Request.decode)

-- The check of the certificate, then that of the credentials.
abbrev pub with_certificate :
    (Bytes → Option Role) → AuthPolicy → Association → MmsResult (Option Bytes) → Handshake
with_certificate verify auth a (err _) = rejected a
with_certificate verify auth a (ok cert_cn) =
    with_role a (authorize verify auth (extract_auth_password a.aarq) cert_cn)

abbrev pub with_association :
    (Bytes → Option Role)
    → AuthPolicy
    → MmsResult (Option Bytes)
    → MmsResult Association
    → Handshake
with_association verify auth certificate (err e) = record { sent = none; outcome = err e }
with_association verify auth certificate (ok a) = with_certificate verify auth a certificate

-- `certificate` is what TLS says of the peer: an error where it refuses the certificate, else the common
-- name, if there is one.
unfoldable pub handshake :
    (Bytes → Option Role) → AuthPolicy → MmsResult (Option Bytes) → Bytes → Handshake
handshake verify auth certificate assoc =
    with_association verify auth certificate (association_of assoc (negotiation assoc))
