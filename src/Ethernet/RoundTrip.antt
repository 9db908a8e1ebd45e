-- ===== src/Ethernet/RoundTrip.antt =====
-- What a publisher writes around an APDU, a subscriber takes off, signed or not.
use iec_61850_studio.Base.{
  ℕ, ◌+◌, ◌-◌, ◌^◌, ◌≤◌, ◌<◌, [], ◌∷◌, ◌++◌, Option, none, some, length, take, drop, Bool, true,
  false, ◌==◌, not, if◌then◌else◌, ◌≡◌, ◌≢◌, refl, sym, ap, ◌∙◌, arith, bit_and, Option-cases, inl,
  inr,
}
use iec_61850_studio.Base.Result.{ok}
use iec_61850_studio.Base.Words.{Bytes, be_bytes, from_be, from_be-be_bytes}
use iec_61850_studio.Ethernet.{
  VlanTag, EthHeader, ParsedAppFrame, tci, from_tci, vlan_octets, tpid_8021q, reserved1_simulated,
  parse_app, parse_eth_appid_auth, u16_at,
}
use iec_61850_studio.Ethernet.Vlan.{tci-lt, from_tci-tci}
use iec_61850_studio.Ethernet.Parse.{app_header, parse_app_lem}

abbrev pub IsVlan : Option VlanTag → Type 0
IsVlan none = Unit {0}
IsVlan (some v) = (v.pcp < 8) × (v.vid < 4096)

-- A header with addresses of six octets, fields of their widths, and an EtherType other than that of
-- the tag.
pub record IsEthHeader (hdr : EthHeader) : Type 0 where
  pub dst_six : length hdr.dst ≡ 6
  pub src_six : length hdr.src ≡ 6
  pub vlan_fits : IsVlan hdr.vlan
  pub ethertype_fits : hdr.ethertype < 2 ^ 16
  pub not_tag : hdr.ethertype ≢ tpid_8021q

-- The octets in front of the application header.
abbrev pub eth_part : EthHeader → Bytes
eth_part hdr = hdr.dst ++ (hdr.src ++ (vlan_octets hdr.vlan ++ be_bytes 2 hdr.ethertype))

abbrev pub reserved1 : Bool → ℕ
reserved1 simulation = if simulation then reserved1_simulated else 0

-- The parser reads the EtherType and goes on to the application header.
parse_plain :
    (bytes : Bytes) (e : ℕ)
    → 14 ≤ length bytes
    → u16_at 12 bytes ≡ e
    → e ≢ tpid_8021q
    → parse_eth_appid_auth bytes e ≡ parse_app bytes none 14 e
unfolding parse_eth_appid_auth
parse_plain bytes e size found other = rw found (ground arith)

parse_tagged :
    (bytes : Bytes) (e : ℕ)
    → 18 ≤ length bytes
    → u16_at 12 bytes ≡ tpid_8021q
    → u16_at 16 bytes ≡ e
    → parse_eth_appid_auth bytes e ≡ parse_app bytes (some (from_tci (u16_at 14 bytes))) 18 e
unfolding parse_eth_appid_auth
parse_tagged bytes e size found inner = rw (found, inner) (ground arith)

six :
    (xs : Bytes)
    → length xs ≡ 6
    → (a : ℕ) × (b : ℕ) × (c : ℕ) × (d : ℕ) × (e : ℕ) × (f : ℕ) × (xs ≡ a ∷ b ∷ c ∷ d ∷ e ∷ f ∷ [])
six [] h = absurd (omega (arith, h))
six (a ∷ []) h = absurd (omega (arith, h))
six (a ∷ b ∷ []) h = absurd (omega (arith, h))
six (a ∷ b ∷ c ∷ []) h = absurd (omega (arith, h))
six (a ∷ b ∷ c ∷ d ∷ []) h = absurd (omega (arith, h))
six (a ∷ b ∷ c ∷ d ∷ e ∷ []) h = absurd (omega (arith, h))
six (a ∷ b ∷ c ∷ d ∷ e ∷ f ∷ []) h = (a, b, c, d, e, f, refl)
six (a ∷ b ∷ c ∷ d ∷ e ∷ f ∷ g ∷ xs) h = absurd (omega (arith, h))

simulation_bit : (b : Bool) → not (bit_and (reserved1 b) reserved1_simulated == 0) ≡ b
simulation_bit true = refl
simulation_bit false = refl

module _ (appid len auth : ℕ) (tail : Bytes) (sim : Bool) where
  abbrev app_octets : Bytes
  app_octets = app_header appid len (reserved1 sim) auth ++ tail

  -- What the parser makes of a frame with these fields.
  abbrev pub parsed : EthHeader → ParsedAppFrame
  parsed hdr = record {
    hdr = hdr;
    appid = appid;
    apdu = take (len - 8 - auth) tail;
    signed_data =
        if auth == 0
        then []
        else app_header appid len (reserved1 sim) auth ++ take (len - 8 - auth) tail;
    auth_tag = if auth == 0 then [] else take auth (drop (len - 8 - auth) tail);
  }

  reserved1-lt : reserved1 sim < 2 ^ 16
  reserved1-lt = ground arith

  abbrev pub Fits : Type 0
  Fits =
      (appid < 2 ^ 16)
      × (len < 2 ^ 16)
      × (auth < 2 ^ 16)
      × (8 + auth ≤ len)
      × (len ≤ 8 + length tail)

  plain_frame :
      (dst src : Bytes) (e : ℕ)
      → Fits
      → length dst ≡ 6
      → length src ≡ 6
      → e < 2 ^ 16
      → e ≢ tpid_8021q
      → parse_eth_appid_auth ((dst ++ (src ++ be_bytes 2 e)) ++ app_octets) e
        ≡ ok
            (parsed (record { dst = dst; src = src; vlan = none; ethertype = e; simulation = sim }))
  plain_frame dst src e (ha, hl, ht, lo, hi) hd hs he other =
      let (a, b, c, d, f, g, ed) = six dst hd in
      let (a', b', c', d', f', g', es) = six src hs in
      rw (ed, es)
        (parse_plain _ e (omega arith) (from_be-be_bytes 2 e ∙ omega (arith, he)) other
          ∙ parse_app_lem (a ∷ b ∷ c ∷ d ∷ f ∷ g ∷ a' ∷ b' ∷ c' ∷ d' ∷ f' ∷ g' ∷ be_bytes 2 e) tail
              appid len (reserved1 sim) auth none e ha hl reserved1-lt ht lo hi
          ∙ rw (simulation_bit sim) refl)

  tagged_frame :
      (dst src : Bytes) (v : VlanTag) (e : ℕ)
      → Fits
      → length dst ≡ 6
      → length src ≡ 6
      → v.pcp < 8
      → v.vid < 4096
      → e < 2 ^ 16
      → parse_eth_appid_auth
          ((dst ++ (src ++ ((be_bytes 2 tpid_8021q ++ be_bytes 2 (tci v)) ++ be_bytes 2 e)))
            ++ app_octets)
          e
        ≡ ok (
            parsed
              (record { dst = dst; src = src; vlan = some v; ethertype = e; simulation = sim }))
  tagged_frame dst src v e (ha, hl, ht, lo, hi) hd hs hp hv he =
      let (a, b, c, d, f, g, ed) = six dst hd in
      let (a', b', c', d', f', g', es) = six src hs in
      let whole_tci : from_be (be_bytes 2 (tci v)) ≡ tci v =
        from_be-be_bytes 2 (tci v) ∙ omega (arith, tci-lt v hp hv) in
      let back : from_tci (from_be (be_bytes 2 (tci v))) ≡ v =
        ap from_tci whole_tci ∙ from_tci-tci v hp hv in
      rw (ed, es)
        (parse_tagged _ e (omega arith) refl (from_be-be_bytes 2 e ∙ omega (arith, he))
          ∙ parse_app_lem
              (a ∷ b ∷ c ∷ d ∷ f ∷ g ∷ a' ∷ b' ∷ c' ∷ d' ∷ f' ∷ g' ∷ be_bytes 2 tpid_8021q
                ++ (be_bytes 2 (tci v) ++ be_bytes 2 e))
              tail appid len (reserved1 sim) auth _ e ha hl reserved1-lt ht lo hi
          ∙ rw (simulation_bit sim, back) refl)

-- Every frame laid out like this is parsed into its fields.
pub parse-layout :
    (hdr : EthHeader) (appid len auth : ℕ) (tail : Bytes)
    → IsEthHeader hdr
    → Fits appid len auth tail hdr.simulation
    → parse_eth_appid_auth
        (eth_part hdr ++ (app_header appid len (reserved1 hdr.simulation) auth ++ tail))
        hdr.ethertype
      ≡ ok (parsed appid len auth tail hdr.simulation hdr)
parse-layout hdr appid len auth tail h fits = elim (Option-cases hdr.vlan) [
  | inl e ↦
      rw e (
        plain_frame appid len auth tail hdr.simulation hdr.dst hdr.src hdr.ethertype fits h.dst_six
          h.src_six h.ethertype_fits h.not_tag)
      ∙ ap
          (λ (v : Option VlanTag).
            ok (parsed appid len auth tail hdr.simulation (record hdr { vlan = v })))
          (sym e)
  | inr (v, e) ↦
      let (hp, hv) : IsVlan (some v) = rw e at h.vlan_fits in
      rw e (
        tagged_frame appid len auth tail hdr.simulation hdr.dst hdr.src v hdr.ethertype fits
          h.dst_six h.src_six hp hv h.ethertype_fits)
      ∙ ap
          (λ (v : Option VlanTag).
            ok (parsed appid len auth tail hdr.simulation (record hdr { vlan = v })))
          (sym e)
]
