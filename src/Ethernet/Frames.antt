-- ===== src/Ethernet/Frames.antt =====
-- The writers lay a frame out in order, though the lengths are put in afterwards.
use iec_61850_studio.Base.{
  ℕ, ◌+◌, ◌-◌, ◌%◌, ◌^◌, ◌≤◌, ◌<◌, [], ◌∷◌, ◌++◌, length, take, drop, replicate, ltb, ◌==◌, false,
  ◌≡◌, refl, sym, ap, ◌∙◌, arith, length-append, append_assoc, append-nil, drop_front, take_front,
  Bool-cases, inl, inr,
}
use iec_61850_studio.Base.Result.{ok}
use iec_61850_studio.Base.Words.{Bytes, be_bytes}
use iec_61850_studio.Ethernet.{
  EthHeader, FrameSigner, write_eth_appid, overwrite, pad, finish_l2_frame, finish_l2_frame_signed,
  parse_eth_appid_auth, vlan_octets,
}
use iec_61850_studio.Ethernet.Parse.{app_header, drop-behind}
use iec_61850_studio.Ethernet.RoundTrip.{IsEthHeader, eth_part, reserved1, parse-layout}

-- A frame around an APDU, as the encoders of GOOSE and SV write it, unsigned and signed.
abbrev pub frame : EthHeader → ℕ → Bytes → Bytes
frame hdr appid apdu =
    let (out, len_pos) = write_eth_appid [] hdr appid in
    finish_l2_frame (out ++ apdu) len_pos (length apdu)

abbrev pub signed_frame : EthHeader → ℕ → Bytes → FrameSigner → Bytes
signed_frame hdr appid apdu signer =
    let (out, len_pos) = write_eth_appid [] hdr appid in
    finish_l2_frame_signed (out ++ apdu) len_pos (length apdu) signer

abbrev zeros : Bytes → Bytes
zeros out = replicate (60 - length out) 0

pad_lem : (out : Bytes) → pad out ≡ out ++ zeros out
pad_lem out = elim (Bool-cases (ltb (length out) 60)) [
  | inl e ↦ rw e refl
  | inr e ↦
      let none_left : 60 - length out ≡ 0 = ground arith in rw (e, none_left) (sym (append-nil out))
]

overwrite_lem :
    (front old new rest : Bytes)
    → length old ≡ length new
    → overwrite (length front) new (front ++ (old ++ rest)) ≡ front ++ (new ++ rest)
overwrite_lem front old new rest h =
    rw
      (
        take_front front (old ++ rest),
        drop-behind (length new) front (old ++ rest),
        sym h,
        drop_front old rest,
      )
      refl

module _ (hdr : EthHeader) (appid : ℕ) where
  abbrev head : Bytes
  head = eth_part hdr ++ be_bytes 2 appid

  abbrev res : Bytes
  res = be_bytes 2 (reserved1 hdr.simulation)

  head_lem :
      hdr.dst
        ++ (hdr.src ++ (vlan_octets hdr.vlan ++ (be_bytes 2 hdr.ethertype ++ be_bytes 2 appid)))
      ≡ head
  head_lem = sym (
      append_assoc hdr.dst _ (be_bytes 2 appid)
      ∙ ap (λ (t : Bytes). hdr.dst ++ t)
          (append_assoc hdr.src _ (be_bytes 2 appid)
            ∙ ap (λ (t : Bytes). hdr.src ++ t)
                (append_assoc (vlan_octets hdr.vlan) (be_bytes 2 hdr.ethertype)
                  (be_bytes 2 appid))))

  written : write_eth_appid [] hdr appid ≡ (head ++ (0 ∷ 0 ∷ (res ++ 0 ∷ 0 ∷ [])), length head)
  unfolding write_eth_appid
  written = ap (λ (t : Bytes). (t ++ (0 ∷ 0 ∷ (res ++ 0 ∷ 0 ∷ [])), length t)) head_lem

  abbrev layout : Bytes → ℕ → ℕ → Bytes
  layout tail len auth =
      eth_part hdr ++ (app_header appid len (reserved1 hdr.simulation) auth ++ tail)

  with_length :
      (apdu : Bytes) (len : ℕ)
      → overwrite (length head) (be_bytes 2 len) ((head ++ (0 ∷ 0 ∷ (res ++ 0 ∷ 0 ∷ []))) ++ apdu)
        ≡ layout apdu len 0
  with_length apdu len =
      ap (overwrite (length head) (be_bytes 2 len))
        (append_assoc head (0 ∷ 0 ∷ (res ++ 0 ∷ 0 ∷ [])) apdu)
      ∙ overwrite_lem head (0 ∷ 0 ∷ []) (be_bytes 2 len) (res ++ 0 ∷ 0 ∷ apdu) refl
      ∙ append_assoc (eth_part hdr) (be_bytes 2 appid) _

  extend :
      (tail more : Bytes) (len auth : ℕ)
      → layout tail len auth ++ more ≡ layout (tail ++ more) len auth
  extend tail more len auth =
      append_assoc (eth_part hdr) _ more
      ∙ ap (λ (t : Bytes). eth_part hdr ++ t)
          (append_assoc (app_header appid len (reserved1 hdr.simulation) auth) tail more)

  frame_lem :
      (apdu : Bytes)
      → frame hdr appid apdu
        ≡ layout
            (apdu ++ zeros (layout apdu ((8 + length apdu) % 2 ^ 16) 0))
            ((8 + length apdu) % 2 ^ 16)
            0
  unfolding finish_l2_frame
  frame_lem apdu =
      let len : ℕ = (8 + length apdu) % 2 ^ 16 in
      rw (written, with_length apdu len, pad_lem (layout apdu len 0))
        (extend apdu (zeros (layout apdu len 0)) len 0)

  with_tag_len :
      (apdu : Bytes) (len auth : ℕ)
      → overwrite (length head + 4) (be_bytes 2 auth) (layout apdu len 0) ≡ layout apdu len auth
  with_tag_len apdu len auth =
      let front : Bytes = eth_part hdr ++ (be_bytes 2 appid ++ (be_bytes 2 len ++ res)) in
      let at : length head + 4 ≡ length front = omega (
        arith,
        length-append (eth_part hdr) (be_bytes 2 appid),
        length-append (eth_part hdr) (be_bytes 2 appid ++ (be_bytes 2 len ++ res)),
      ) in
      ap (λ (n : ℕ). overwrite n (be_bytes 2 auth) (layout apdu len 0)) at
      ∙ ap (overwrite (length front) (be_bytes 2 auth))
          (sym (append_assoc (eth_part hdr) _ (0 ∷ 0 ∷ apdu)))
      ∙ overwrite_lem front (0 ∷ 0 ∷ []) (be_bytes 2 auth) apdu refl
      ∙ append_assoc (eth_part hdr) _ _

  signed_range :
      (apdu : Bytes) (len auth : ℕ)
      → take
          (length head + 6 + length apdu - (length head - 2))
          (drop (length head - 2) (layout apdu len auth))
        ≡ app_header appid len (reserved1 hdr.simulation) auth ++ apdu
  signed_range apdu len auth =
      let covered : Bytes = app_header appid len (reserved1 hdr.simulation) auth ++ apdu in
      let start : length head - 2 ≡ length (eth_part hdr) =
        omega (arith, length-append (eth_part hdr) (be_bytes 2 appid)) in
      let size : length head + 6 + length apdu - (length head - 2) ≡ length covered =
        omega (arith, length-append (eth_part hdr) (be_bytes 2 appid)) in
      rw (size, start, drop_front (eth_part hdr) covered)
        (ap (take (length covered)) (sym (append-nil covered)) ∙ take_front covered [])

  signed_frame_lem :
      (apdu : Bytes) (signer : FrameSigner) (len auth : ℕ) (tag : Bytes)
      → (8 + length apdu + signer.tag_len) % 2 ^ 16 ≡ len
      → signer.tag_len % 2 ^ 16 ≡ auth
      → signer.sign_tag (app_header appid len (reserved1 hdr.simulation) auth ++ apdu) ≡ tag
      → signed_frame hdr appid apdu signer
        ≡ layout (apdu ++ (tag ++ zeros (layout (apdu ++ tag) len auth))) len auth
  unfolding finish_l2_frame_signed
  signed_frame_lem apdu signer len auth tag el ea et =
      rw
        (
          written,
          el,
          ea,
          with_length apdu len,
          with_tag_len apdu len auth,
          signed_range apdu len auth,
          et,
          extend apdu tag len auth,
          pad_lem (layout (apdu ++ tag) len auth),
        )
        (extend (apdu ++ tag) _ len auth
          ∙ ap (λ (t : Bytes). layout t len auth) (append_assoc apdu tag _))

  -- An unsigned frame, padded or not, gives back its header, its APPID and exactly its APDU, with no
  -- tag, where the header `IsEthHeader` and the fields fit their two octets.
  pub parse_eth_appid_auth-frame :
      (apdu : Bytes)
      → IsEthHeader hdr
      → appid < 2 ^ 16
      → 8 + length apdu < 2 ^ 16
      → parse_eth_appid_auth (frame hdr appid apdu) hdr.ethertype
        ≡ ok (record { hdr = hdr; appid = appid; apdu = apdu; signed_data = []; auth_tag = [] })
  parse_eth_appid_auth-frame apdu h ha small =
      let len : (8 + length apdu) % 2 ^ 16 ≡ 8 + length apdu = omega arith in
      let z : Bytes = zeros (layout apdu (8 + length apdu) 0) in
      let same : take (8 + length apdu - 8 - 0) (apdu ++ z) ≡ apdu =
        ap (λ (n : ℕ). take n (apdu ++ z)) {x = 8 + length apdu - 8 - 0} {y = length apdu}
          (omega arith)
        ∙ take_front apdu z in
      rw (frame_lem apdu, len)
        (parse-layout hdr appid (8 + length apdu) 0 (apdu ++ z) h
            (omega (arith, ha, small, length-append apdu z))
          ∙ ap
              (λ (a : Bytes).
                ok (record { hdr = hdr; appid = appid; apdu = a; signed_data = []; auth_tag = [] }))
              same)

  -- A signed frame gives back its header, its APPID and its APDU, the tag of the signer and exactly the
  -- octets that the signer signed: the application header with both lengths and the APDU. The
  -- fields fit their octets, and the signer's tags have the length that it tells, at least one octet.
  pub parse_eth_appid_auth-signed_frame :
      (apdu : Bytes) (signer : FrameSigner)
      → IsEthHeader hdr
      → appid < 2 ^ 16
      → ((data' : Bytes) → length (signer.sign_tag data') ≡ signer.tag_len)
      → 1 ≤ signer.tag_len
      → 8 + length apdu + signer.tag_len < 2 ^ 16
      → (covered : Bytes) × (covered
          ≡ app_header appid
              (8 + length apdu + signer.tag_len)
              (reserved1 hdr.simulation)
              signer.tag_len
            ++ apdu)
        × (parse_eth_appid_auth (signed_frame hdr appid apdu signer) hdr.ethertype
            ≡ ok (record {
              hdr = hdr;
              appid = appid;
              apdu = apdu;
              signed_data = covered;
              auth_tag = signer.sign_tag covered;
            }))
  parse_eth_appid_auth-signed_frame apdu signer h ha tags some_tag small =
      let t : ℕ = signer.tag_len in
      let len : ℕ = 8 + length apdu + t in
      let covered : Bytes = app_header appid len (reserved1 hdr.simulation) t ++ apdu in
      let tag : Bytes = signer.sign_tag covered in
      let z : Bytes = zeros (layout (apdu ++ tag) len t) in
      let front : take (len - 8 - t) (apdu ++ (tag ++ z)) ≡ apdu =
        ap (λ (n : ℕ). take n (apdu ++ (tag ++ z))) {x = len - 8 - t} {y = length apdu}
          (omega arith)
        ∙ take_front apdu (tag ++ z) in
      let behind : take t (drop (len - 8 - t) (apdu ++ (tag ++ z))) ≡ tag =
        ap (λ (n : ℕ). take t (drop n (apdu ++ (tag ++ z)))) {x = len - 8 - t} {y = length apdu}
          (omega arith)
        ∙ ap (take t) (drop_front apdu (tag ++ z))
        ∙ ap (λ (n : ℕ). take n (tag ++ z)) (sym (tags covered))
        ∙ take_front tag z in
      let not_zero : (t == 0) ≡ false = ground arith in
      (
        covered,
        refl,
        ap (λ (f : Bytes). parse_eth_appid_auth f hdr.ethertype)
              (signed_frame_lem apdu signer len t tag (omega arith) (omega arith) refl)
            ∙ parse-layout hdr appid len t (apdu ++ (tag ++ z)) h (
                omega (
                  arith,
                  ha,
                  small,
                  length-append apdu (tag ++ z),
                  length-append tag z,
                  tags covered,
                ))
            ∙ rw (not_zero, front, behind) refl,
      )
