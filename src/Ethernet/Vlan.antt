-- ===== src/Ethernet/Vlan.antt =====
-- The 802.1Q tag in two octets.
use iec_61850_studio.Base.{
  ℕ, ◌+◌, ◌*◌, ◌/◌, ◌%◌, ◌^◌, ◌<◌, Bool, ◌≡◌, sym, ap, Bool-cases, inl, inr, ◌∙◌, arith, bit_and,
  bit_or,
}
use iec_61850_studio.Base.Bits.{bit_and_mask, bit_or_field}
use iec_61850_studio.Ethernet.{VlanTag, tci, from_tci}

fields_joined :
    (p d v : ℕ)
    → p < 8
    → d < 2
    → v < 4096
    → bit_or (bit_or (bit_and p 0x7 * 2 ^ 13) (d * 2 ^ 12)) (bit_and v 0x0FFF)
      ≡ p * 2 ^ 13 + d * 2 ^ 12 + v
fields_joined p d v hp hd hv =
    let ep : bit_and p 7 ≡ p = bit_and_mask 3 p ∙ omega arith in
    let ev : bit_and v 4095 ≡ v = bit_and_mask 12 v ∙ omega arith in
    let e₁ : bit_or (p * 2 ^ 13) (d * 2 ^ 12) ≡ (p * 2 + d) * 2 ^ 12 =
      bit_or_field 13 p (d * 2 ^ 12) (omega arith) ∙ omega arith in
    ap (λ (a : ℕ). bit_or (bit_or (a * 2 ^ 13) (d * 2 ^ 12)) (bit_and v 0x0FFF)) ep
    ∙ ap (λ (a : ℕ). bit_or a (bit_and v 0x0FFF)) e₁
    ∙ ap (λ (a : ℕ). bit_or ((p * 2 + d) * 2 ^ 12) a) ev
    ∙ bit_or_field 12 (p * 2 + d) v hv
    ∙ omega arith

fields_parted :
    (p d v : ℕ)
    → p < 8
    → d < 2
    → v < 4096
    → (bit_and ((p * 2 ^ 13 + d * 2 ^ 12 + v) / 2 ^ 13 % 2 ^ 8) 0x7 ≡ p)
      × (bit_and ((p * 2 ^ 13 + d * 2 ^ 12 + v) / 2 ^ 12) 1 ≡ d)
      × (bit_and (p * 2 ^ 13 + d * 2 ^ 12 + v) 0x0FFF ≡ v)
fields_parted p d v hp hd hv = (
  bit_and_mask 3 _ ∙ omega arith,
  bit_and_mask 1 _ ∙ omega arith,
  bit_and_mask 12 _ ∙ omega arith,
)

pub tci-lt : (v : VlanTag) → v.pcp < 8 → v.vid < 4096 → tci v < 2 ^ 16
unfolding tci
tci-lt v hp hv = elim (Bool-cases v.dei) [
  | inl e ↦ rw e (omega (arith, fields_joined v.pcp 1 v.vid hp (omega arith) hv))
  | inr e ↦ rw e (omega (arith, fields_joined v.pcp 0 v.vid hp (omega arith) hv))
]

-- Every tag of three bits of priority and twelve bits of identifier is read back.
pub from_tci-tci : (v : VlanTag) → v.pcp < 8 → v.vid < 4096 → from_tci (tci v) ≡ v
from_tci-tci v hp hv = elim (Bool-cases v.dei) [
  | inl e ↦
      let whole : tci v ≡ v.pcp * 2 ^ 13 + 1 * 2 ^ 12 + v.vid =
        unfold tci in rw e (fields_joined v.pcp 1 v.vid hp (omega arith) hv) in
      let (a, b, c) = fields_parted v.pcp 1 v.vid hp (omega arith) hv in
      rw whole (
        unfold from_tci in
        rw (a, b, c) (ap (λ (d : Bool). record { pcp = v.pcp; dei = d; vid = v.vid }) (sym e)))
  | inr e ↦
      let whole : tci v ≡ v.pcp * 2 ^ 13 + 0 * 2 ^ 12 + v.vid =
        unfold tci in rw e (fields_joined v.pcp 0 v.vid hp (omega arith) hv) in
      let (a, b, c) = fields_parted v.pcp 0 v.vid hp (omega arith) hv in
      rw whole (
        unfold from_tci in
        rw (a, b, c) (ap (λ (d : Bool). record { pcp = v.pcp; dei = d; vid = v.vid }) (sym e)))
]
