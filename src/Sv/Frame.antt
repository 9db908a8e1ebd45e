-- ===== src/Sv/Frame.antt =====
-- crates/iec61850-sv/src/frame.rs: the PDU in its Ethernet frame, signed or not. The status of a signature is that
-- of the layer below, as in GOOSE.
use iec_61850_studio.Base.{
  ℕ, ◌+◌, ◌^◌, ◌<◌, [], ◌++◌, Option, length, Bool, ◌≡◌, refl, ap, ◌∙◌, arith, append-nil, sym, ◌≤◌,
  true, false, ◌==◌,
}
use iec_61850_studio.Base.Result.{Result, ok, ◌>>=◌, map_err, >>=-eq-ok, map_err-eq-ok}
use iec_61850_studio.Base.Words.{Bytes}
use iec_61850_studio.Ber.Std.{Std}
use iec_61850_studio.Ethernet.{
  VlanTag, L2Error, EthHeader, FrameSigner, write_eth_appid, finish_l2_frame,
  finish_l2_frame_signed, parse_eth_appid, parse_eth_appid_auth,
}
use iec_61850_studio.Ethernet.RoundTrip.{IsEthHeader}
use iec_61850_studio.Ethernet.Frames.{parse_eth_appid_auth-frame, parse_eth_appid_auth-signed_frame}
use iec_61850_studio.Goose.Frame.{
  AuthStatus, FrameVerifier, auth_status, valid, IsVerified, status-IsVerified,
}
use iec_61850_studio.Sv.Pdu
use iec_61850_studio.Sv.Pdu.{SvPdu, SvError, SvResult, l2}
use iec_61850_studio.Sv.Pdu.RoundTrip.{IsSvPdu, decode-encode_sv}

abbrev pub ethertype_sv : ℕ
ethertype_sv = 0x88BA

pub record SvFrame : Type 0 where
  pub dst : Bytes
  pub src : Bytes
  pub vlan : Option VlanTag
  pub appid : ℕ
  pub simulation : Bool
  pub pdu : SvPdu

-- `hdr` of the encoders.
abbrev pub header : SvFrame → EthHeader
header f = record {
  dst = f.dst;
  src = f.src;
  vlan = f.vlan;
  ethertype = ethertype_sv;
  simulation = f.simulation;
}

unfoldable pub encode : SvFrame → Bytes
encode f =
    let (out, len_pos) = write_eth_appid [] (header f) f.appid in
    let apdu = Pdu.encode f.pdu in finish_l2_frame (out ++ apdu) len_pos (length apdu)

unfoldable pub encode_signed : SvFrame → FrameSigner → Bytes
encode_signed f signer =
    let (out, len_pos) = write_eth_appid [] (header f) f.appid in
    let apdu = Pdu.encode f.pdu in finish_l2_frame_signed (out ++ apdu) len_pos (length apdu) signer

abbrev pub from_l2 : {A : Type 0} → Result L2Error A → SvResult A
from_l2 m = map_err l2 m

abbrev pub to_frame : EthHeader → ℕ → SvPdu → SvFrame
to_frame hdr appid pdu = record {
  dst = hdr.dst;
  src = hdr.src;
  vlan = hdr.vlan;
  appid = appid;
  simulation = hdr.simulation;
  pdu = pdu;
}

unfoldable pub decode : Std → Bytes → SvResult SvFrame
decode s bytes = do
  (hdr, (appid, apdu)) ← from_l2 (parse_eth_appid bytes ethertype_sv)
  pdu ← Pdu.decode s apdu
  ok (to_frame hdr appid pdu)

unfoldable pub decode_verified : Std → Bytes → FrameVerifier → SvResult (SvFrame × AuthStatus)
decode_verified s bytes verify = do
  p ← from_l2 (parse_eth_appid_auth bytes ethertype_sv)
  pdu ← Pdu.decode s p.apdu
  ok (to_frame p.hdr p.appid pdu, auth_status verify p)

-- A frame is called valid only where the verifier accepted its tag.
pub decode_verified-IsVerified :
    (s : Std) (bytes : Bytes) (verify : FrameVerifier) (frame : SvFrame)
    → decode_verified s bytes verify ≡ ok (frame, valid)
    → IsVerified verify ethertype_sv bytes
unfolding decode_verified
decode_verified-IsVerified s bytes verify frame e =
    let (p, e₁, e₂) = >>=-eq-ok (from_l2 (parse_eth_appid_auth bytes ethertype_sv)) _ e in
    let (pdu, _, e₃) = >>=-eq-ok (Pdu.decode s p.apdu) _ e₂ in
    let status : auth_status verify p ≡ valid = cc in
    status-IsVerified verify ethertype_sv bytes p (map_err-eq-ok l2 _ e₁) status

pdu_content :
    (s : Std) (p : SvPdu)
    → IsSvPdu s p
    → length (Pdu.encode p) < 2 ^ 64
    → Pdu.decode s (Pdu.encode p) ≡ ok p
pdu_content s p h small =
    let apdu : Bytes = Pdu.encode p in
    let fits : length (apdu ++ []) < 2 ^ 64 = omega (arith, small, ap length (append-nil apdu)) in
    ap (Pdu.decode s) (sym (append-nil apdu)) ∙ decode-encode_sv s p [] h fits

-- A frame that `encode` wrote is read back by `decode`, padded or not, for a header `IsEthHeader`, a PDU
-- `IsSvPdu`, and an APDU whose length fits its field.
pub decode-encode_sv_frame :
    (s : Std) (f : SvFrame)
    → IsEthHeader (header f)
    → f.appid < 2 ^ 16
    → IsSvPdu s f.pdu
    → 8 + length (Pdu.encode f.pdu) < 2 ^ 16
    → decode s (encode f) ≡ ok f
unfolding encode decode parse_eth_appid
decode-encode_sv_frame s f hdr ha hp small =
    let apdu : Bytes = Pdu.encode f.pdu in
    rw
      (
        parse_eth_appid_auth-frame (header f) f.appid apdu hdr ha small,
        pdu_content s f.pdu hp (omega arith),
      )
      refl

-- A frame that `encode_signed` signed is read back with the status `Valid` by a verifier that accepts what the
-- signer signs, for a header and a PDU as above, and tags of the length that the signer tells, which is
-- at least one octet and fits the length field with the APDU.
pub decode_verified-encode_signed :
    (s : Std) (f : SvFrame) (signer : FrameSigner) (verify : FrameVerifier)
    → IsEthHeader (header f)
    → f.appid < 2 ^ 16
    → IsSvPdu s f.pdu
    → ((data' : Bytes) → length (signer.sign_tag data') ≡ signer.tag_len)
    → 1 ≤ signer.tag_len
    → 8 + length (Pdu.encode f.pdu) + signer.tag_len < 2 ^ 16
    → ((data' : Bytes) → verify data' (signer.sign_tag data') ≡ true)
    → decode_verified s (encode_signed f signer) verify ≡ ok (f, valid)
unfolding encode_signed decode_verified auth_status
decode_verified-encode_signed s f signer verify hdr ha hp tags some_tag small accepts =
    let apdu : Bytes = Pdu.encode f.pdu in
    let (covered, _, e) =
      parse_eth_appid_auth-signed_frame (header f) f.appid apdu signer hdr ha tags some_tag small in
    let tagged : (length (signer.sign_tag covered) == 0) ≡ false = ground (arith, tags covered) in
    rw (e, pdu_content s f.pdu hp (omega arith), tagged, accepts covered) refl
