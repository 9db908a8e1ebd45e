-- ===== src/Goose/Frame.antt =====
-- crates/iec61850-goose/src/frame.rs: the PDU in its Ethernet frame, signed or not.
use iec_61850_studio.Base.{
  ℕ, ◌+◌, ◌^◌, ◌≤◌, ◌<◌, [], ◌++◌, Option, length, Bool, true, ◌==◌, if◌then◌else◌, ◌≡◌, refl, ap,
  ◌∙◌, arith, append-nil, sym,
}
use iec_61850_studio.Base.Result.{Result, ok, ◌>>=◌, map_err, >>=-eq-ok, map_err-eq-ok}
use iec_61850_studio.Base.Words.{Bytes}
use iec_61850_studio.Ber.Std.{Std, IsIeee}
use iec_61850_studio.Ethernet.{
  VlanTag, L2Error, EthHeader, FrameSigner, ParsedAppFrame, write_eth_appid, finish_l2_frame,
  finish_l2_frame_signed, parse_eth_appid, parse_eth_appid_auth,
}
use iec_61850_studio.Ethernet.RoundTrip.{IsEthHeader}
use iec_61850_studio.Ethernet.Frames.{parse_eth_appid_auth-frame}
use iec_61850_studio.Goose.Pdu
use iec_61850_studio.Goose.Pdu.{GoosePdu, GooseError, GooseResult, l2}
use iec_61850_studio.Goose.Pdu.RoundTrip.{IsGoosePdu, decode-encode_pdu}

abbrev pub ethertype_goose : ℕ
ethertype_goose = 0x88B8

pub record GooseFrame : Type 0 where
  pub dst : Bytes
  pub src : Bytes
  pub vlan : Option VlanTag
  pub appid : ℕ
  pub simulation : Bool
  pub pdu : GoosePdu

-- `hdr` of the encoders.
abbrev pub header : GooseFrame → EthHeader
header f = record {
  dst = f.dst;
  src = f.src;
  vlan = f.vlan;
  ethertype = ethertype_goose;
  simulation = f.simulation;
}

unfoldable pub encode : Std → GooseFrame → Bytes
encode s f =
    let (out, len_pos) = write_eth_appid [] (header f) f.appid in
    let apdu = Pdu.encode s f.pdu in finish_l2_frame (out ++ apdu) len_pos (length apdu)

unfoldable pub encode_signed : Std → GooseFrame → FrameSigner → Bytes
encode_signed s f signer =
    let (out, len_pos) = write_eth_appid [] (header f) f.appid in
    let apdu = Pdu.encode s f.pdu in
    finish_l2_frame_signed (out ++ apdu) len_pos (length apdu) signer

abbrev pub from_l2 : {A : Type 0} → Result L2Error A → GooseResult A
from_l2 m = map_err l2 m

abbrev pub to_frame : EthHeader → ℕ → GoosePdu → GooseFrame
to_frame hdr appid pdu = record {
  dst = hdr.dst;
  src = hdr.src;
  vlan = hdr.vlan;
  appid = appid;
  simulation = hdr.simulation;
  pdu = pdu;
}

unfoldable pub decode : Std → Bytes → GooseResult GooseFrame
decode s bytes = do
  (hdr, (appid, apdu)) ← from_l2 (parse_eth_appid bytes ethertype_goose)
  pdu ← Pdu.decode s apdu
  ok (to_frame hdr appid pdu)

pub data AuthStatus : Type 0 where
  unsigned valid invalid : AuthStatus

-- `verifier.verify_tag`, whose code is a key's
abbrev pub FrameVerifier : Type 0
FrameVerifier = Bytes → Bytes → Bool

unfoldable pub auth_status : FrameVerifier → ParsedAppFrame → AuthStatus
auth_status verify p =
    if length p.auth_tag == 0
    then unsigned
    else if verify p.signed_data p.auth_tag
    then valid
    else invalid

-- The octets are a frame with a tag that the verifier accepted for the data that the frame signs.
pub record IsVerified (verify : FrameVerifier) (ethertype : ℕ) (bytes : Bytes) : Type 0 where
  pub parsed : ParsedAppFrame
  pub is_parsed : parse_eth_appid_auth bytes ethertype ≡ ok parsed
  pub has_tag : 1 ≤ length parsed.auth_tag
  pub accepted : verify parsed.signed_data parsed.auth_tag ≡ true

auth_status-valid :
    (verify : FrameVerifier) (p : ParsedAppFrame)
    → auth_status verify p ≡ valid
    → (1 ≤ length p.auth_tag) × (verify p.signed_data p.auth_tag ≡ true)
unfolding auth_status
auth_status-valid verify p e = (ground (arith, e), ground (arith, e))

pub status-IsVerified :
    (verify : FrameVerifier) (ethertype : ℕ) (bytes : Bytes) (p : ParsedAppFrame)
    → parse_eth_appid_auth bytes ethertype ≡ ok p
    → auth_status verify p ≡ valid
    → IsVerified verify ethertype bytes
status-IsVerified verify ethertype bytes p e status = record {
  parsed = p;
  is_parsed = e;
  has_tag = (auth_status-valid verify p status).0;
  accepted = (auth_status-valid verify p status).1;
}

unfoldable pub decode_verified : Std → Bytes → FrameVerifier → GooseResult (GooseFrame × AuthStatus)
decode_verified s bytes verify = do
  p ← from_l2 (parse_eth_appid_auth bytes ethertype_goose)
  pdu ← Pdu.decode s p.apdu
  ok (to_frame p.hdr p.appid pdu, auth_status verify p)

-- A frame is called valid only where the verifier accepted its tag.
pub decode_verified-IsVerified :
    (s : Std) (bytes : Bytes) (verify : FrameVerifier) (frame : GooseFrame)
    → decode_verified s bytes verify ≡ ok (frame, valid)
    → IsVerified verify ethertype_goose bytes
unfolding decode_verified
decode_verified-IsVerified s bytes verify frame e =
    let (p, e₁, e₂) = >>=-eq-ok (from_l2 (parse_eth_appid_auth bytes ethertype_goose)) _ e in
    let (pdu, _, e₃) = >>=-eq-ok (Pdu.decode s p.apdu) _ e₂ in
    let status : auth_status verify p ≡ valid = cc in
    status-IsVerified verify ethertype_goose bytes p (map_err-eq-ok l2 _ e₁) status

-- A frame that `encode` wrote is read back by `decode`, padded or not, for a library that keeps
-- `IsIeee`, a header `IsEthHeader`, a PDU `IsGoosePdu`, and an APDU whose length fits its field.
pub decode-encode_frame :
    (s : Std) (f : GooseFrame)
    → IsIeee s
    → IsEthHeader (header f)
    → f.appid < 2 ^ 16
    → IsGoosePdu s f.pdu
    → 8 + length (Pdu.encode s f.pdu) < 2 ^ 16
    → decode s (encode s f) ≡ ok f
unfolding encode decode parse_eth_appid
decode-encode_frame s f ieee hdr ha hp small =
    let apdu : Bytes = Pdu.encode s f.pdu in
    let fits : length (apdu ++ []) < 2 ^ 64 = omega (arith, small, ap length (append-nil apdu)) in
    let inner : Pdu.decode s apdu ≡ ok f.pdu =
      ap (Pdu.decode s) (sym (append-nil apdu)) ∙ decode-encode_pdu s f.pdu [] ieee hp fits in
    rw (parse_eth_appid_auth-frame (header f) f.appid apdu hdr ha small, inner) refl
