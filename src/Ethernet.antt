-- ===== src/Ethernet.antt =====
-- crates/iec61850-l2/src/eth.rs: the Ethernet header with its 802.1Q tag, and the application header
-- that GOOSE and sampled values share. A `MacAddr` is a string of six octets.
pub mod Vlan
pub mod Parse
pub mod RoundTrip
pub mod Frames
use iec_61850_studio.Base.{
  ℕ, ◌+◌, ◌-◌, ◌*◌, ◌/◌, ◌%◌, ◌^◌, [], ◌∷◌, ◌++◌, Option, none, some, length, take, drop, replicate,
  Bool, true, false, ltb, ◌==◌, not, if◌then◌else◌, bit_and, bit_or,
}
use iec_61850_studio.Base.Result.{Result, ok, err, ◌>>=◌}
use iec_61850_studio.Base.Words.{Bytes, be_bytes, from_be}

abbrev pub tpid_8021q : ℕ
tpid_8021q = 0x8100

abbrev pub min_eth_frame : ℕ
min_eth_frame = 60

abbrev pub reserved1_simulated : ℕ
reserved1_simulated = 0x8000

pub record VlanTag : Type 0 where
  pub pcp : ℕ
  pub dei : Bool
  pub vid : ℕ

-- `VlanTag::new`
abbrev pub new_vlan : ℕ → VlanTag
new_vlan id = record { pcp = 4; dei = false; vid = bit_and id 0x0FFF }

abbrev bit : Bool → ℕ
bit b = if b then 1 else 0

unfoldable pub tci : VlanTag → ℕ
tci v = bit_or (bit_or (bit_and v.pcp 0x7 * 2 ^ 13) (bit v.dei * 2 ^ 12)) (bit_and v.vid 0x0FFF)

-- The tag in `parse_eth_appid_auth`.
unfoldable pub from_tci : ℕ → VlanTag
from_tci tci = record {
  pcp = bit_and (tci / 2 ^ 13 % 2 ^ 8) 0x7;
  dei = bit_and (tci / 2 ^ 12) 1 == 1;
  vid = bit_and tci 0x0FFF;
}

pub data L2Error : Type 0 where
  io permission truncated : L2Error
  wrong_ethertype : ℕ → L2Error
  malformed : L2Error

pub record EthHeader : Type 0 where
  pub dst : Bytes
  pub src : Bytes
  pub vlan : Option VlanTag
  pub ethertype : ℕ
  pub simulation : Bool

-- The tag, where there is one.
abbrev pub vlan_octets : Option VlanTag → Bytes
vlan_octets none = []
vlan_octets (some v) = be_bytes 2 tpid_8021q ++ be_bytes 2 (tci v)

-- `write_eth_appid`: the buffer and the position of the length.
unfoldable pub write_eth_appid : Bytes → EthHeader → ℕ → Bytes × ℕ
write_eth_appid out hdr appid =
    let head =
      out
      ++ (hdr.dst
          ++ (hdr.src
              ++ (vlan_octets hdr.vlan ++ (be_bytes 2 hdr.ethertype ++ be_bytes 2 appid)))) in
    let reserved1 = if hdr.simulation then reserved1_simulated else 0 in
    (head ++ (0 ∷ 0 ∷ (be_bytes 2 reserved1 ++ 0 ∷ 0 ∷ [])), length head)

-- `out[pos..pos + n].copy_from_slice(bytes)`
abbrev pub overwrite : ℕ → Bytes → Bytes → Bytes
overwrite pos bytes out = take pos out ++ (bytes ++ drop (pos + length bytes) out)

-- `if out.len() < MIN_ETH_FRAME { out.resize(MIN_ETH_FRAME, 0) }`
abbrev pub pad : Bytes → Bytes
pad out =
    if ltb (length out) min_eth_frame then out ++ replicate (min_eth_frame - length out) 0 else out

unfoldable pub finish_l2_frame : Bytes → ℕ → ℕ → Bytes
finish_l2_frame out len_pos apdu_len =
    pad (overwrite len_pos (be_bytes 2 ((8 + apdu_len) % 2 ^ 16)) out)

-- A signer (`FrameSigner`): HMAC-SHA256 or ECDSA, whose code is not here.
pub record FrameSigner : Type 0 where
  pub tag_len : ℕ
  pub sign_tag : Bytes → Bytes

unfoldable pub finish_l2_frame_signed : Bytes → ℕ → ℕ → FrameSigner → Bytes
finish_l2_frame_signed out len_pos apdu_len signer =
    let out₁ = overwrite len_pos (be_bytes 2 ((8 + apdu_len + signer.tag_len) % 2 ^ 16)) out in
    let out₂ = overwrite (len_pos + 4) (be_bytes 2 (signer.tag_len % 2 ^ 16)) out₁ in
    let start = len_pos - 2 in
    let end = len_pos + 6 + apdu_len in
    pad (out₂ ++ signer.sign_tag (take (end - start) (drop start out₂)))

pub record ParsedAppFrame : Type 0 where
  pub hdr : EthHeader
  pub appid : ℕ
  pub apdu : Bytes
  pub signed_data : Bytes
  pub auth_tag : Bytes

-- `&bytes[start..end]`, and a `u16` at a position
abbrev pub slice : ℕ → ℕ → Bytes → Bytes
slice start end bytes = take (end - start) (drop start bytes)

abbrev pub u16_at : ℕ → Bytes → ℕ
u16_at pos bytes = from_be (take 2 (drop pos bytes))

-- The application header at `off` and what follows it.
unfoldable pub parse_app : Bytes → Option VlanTag → ℕ → ℕ → Result L2Error ParsedAppFrame
parse_app bytes vlan off ethertype =
    let len = u16_at (off + 2) bytes in
    let auth_len = u16_at (off + 6) bytes in
    let end = off + len in
    if ltb (length bytes) (off + 8)
    then err malformed
    else if ltb len (8 + auth_len)
    then err malformed
    else if ltb (length bytes) end
    then err malformed
    else ok (record {
      hdr = record {
        dst = slice 0 6 bytes;
        src = slice 6 12 bytes;
        vlan = vlan;
        ethertype = ethertype;
        simulation = not (bit_and (u16_at (off + 4) bytes) reserved1_simulated == 0);
      };
      appid = u16_at off bytes;
      apdu = slice (off + 8) (end - auth_len) bytes;
      signed_data = if auth_len == 0 then [] else slice off (end - auth_len) bytes;
      auth_tag = if auth_len == 0 then [] else slice (end - auth_len) end bytes;
    })

unfoldable pub parse_eth_appid_auth : Bytes → ℕ → Result L2Error ParsedAppFrame
parse_eth_appid_auth bytes expected_ethertype =
    let found = u16_at 12 bytes in
    let inner = u16_at 16 bytes in
    if ltb (length bytes) 14
    then err truncated
    else if found == tpid_8021q
    then (if ltb (length bytes) 18
        then err truncated
        else if not (inner == expected_ethertype)
        then err (wrong_ethertype inner)
        else parse_app bytes (some (from_tci (u16_at 14 bytes))) 18 inner)
    else if not (found == expected_ethertype)
    then err (wrong_ethertype found)
    else parse_app bytes none 14 found

unfoldable pub parse_eth_appid : Bytes → ℕ → Result L2Error (EthHeader × (ℕ × Bytes))
parse_eth_appid bytes expected_ethertype = do
  p ← parse_eth_appid_auth bytes expected_ethertype
  ok (p.hdr, (p.appid, p.apdu))
