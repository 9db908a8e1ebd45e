-- ===== src/Sv/Pdu/RoundTrip.antt =====
-- What `SvPdu::encode` wrote, `SvPdu::decode` reads.
use iec_61850_studio.Base.{
  ℕ, zero, suc, ◌^◌, ◌≤◌, ◌<◌, List, [], ◌∷◌, ◌++◌, Option, none, some, true, false, length, drop,
  All, ◌≡◌, refl, sym, ap, ◌∙◌, arith, length-append, ltb-true, append-nil, append_assoc, inl, inr,
}
use mathlib.Core.Option
use mathlib.Core.Path.{ap₂}
use iec_61850_studio.Base.Result.{ok}
use iec_61850_studio.Base.Words.{Bytes, be_bytes, from_be, from_be-be_bytes}
use iec_61850_studio.Ber.Tag.{tag_eq}
use iec_61850_studio.Ber.Primitives.{encode_unsigned, decode_visible_string}
use iec_61850_studio.Ber.Primitives.Unsigned.{decode_integer-encode_unsigned}
use iec_61850_studio.Ber.Reader.{BerReader, new}
use iec_61850_studio.Ber.Reader.Laws.{read_tlv-tlv_octets}
use iec_61850_studio.Ber.Writer.{
  BerWriter, unsigned, visible_string, octet_string, sequence, sequence_tag,
}
use iec_61850_studio.Ber.Writer.Laws.{
  tlv_octets, length-tlv_octets, primitive-append, tlv-append, content-le-tlv_octets,
}
use iec_61850_studio.Ber.Fields.{
  Field, fields_octets, write_primitives-append, Stands, Follows, read_tlv_step, expect_step,
  read_if_step, at_end-is_empty, not-is_empty, Stands-fits,
}
use iec_61850_studio.Ber.Std.{Std}
use iec_61850_studio.Ber.Data.{UtcTime}
use iec_61850_studio.Sv.Pdu.{
  Asdu, SvPdu, SvResult, sav_pdu, no_asdu_tag, security_tag, seq_asdu_tag, asdu_tag, write_asdu,
  write_asdus, encode, octets_u16, octets_u32, eight_octets, text, optionally, decode_asdu,
  decode_asdus, read_sav, decode,
}

-- A property of the value, where there is one.
abbrev pub OnSome : {A : Type 0} → (A → Type 0) → Option A → Type 0
OnSome P none = Unit
OnSome P (some a) = P a

-- The values of the Rust type.
pub record IsAsdu (s : Std) (a : Asdu) : Type 0 where
  pub sv_id_utf8 : s.utf8 a.sv_id ≡ true
  pub dat_set_utf8 : OnSome (λ c. s.utf8 c ≡ true) a.dat_set
  pub smp_cnt_u16 : a.smp_cnt < 2 ^ 16
  pub conf_rev_u32 : a.conf_rev < 2 ^ 32
  pub refr_tm_eight : OnSome (λ t. length t.raw ≡ 8) a.refr_tm
  pub smp_rate_u16 : OnSome (λ r. r < 2 ^ 16) a.smp_rate
  pub smp_mod_u16 : OnSome (λ m. m < 2 ^ 16) a.smp_mod

-- The fields of an ASDU, in the order of the wire.
abbrev pub fields : Asdu → List Field
fields a =
    (asdu_tag 0, some a.sv_id)
    ∷ (asdu_tag 1, a.dat_set)
    ∷ (asdu_tag 2, some (be_bytes 2 a.smp_cnt))
    ∷ (asdu_tag 3, some (be_bytes 4 a.conf_rev))
    ∷ (asdu_tag 4, Option.map (λ (t : UtcTime). t.raw) a.refr_tm)
    ∷ (asdu_tag 5, some (a.smp_synch ∷ []))
    ∷ (asdu_tag 6, Option.map (be_bytes 2) a.smp_rate)
    ∷ (asdu_tag 7, some a.sample)
    ∷ (asdu_tag 8, Option.map (be_bytes 2) a.smp_mod)
    ∷ []

abbrev pub asdu_octets : Asdu → Bytes
asdu_octets a = fields_octets (fields a)

abbrev pub asdus_octets : List Asdu → Bytes
asdus_octets [] = []
asdus_octets (a ∷ asdus) = tlv_octets sequence_tag (asdu_octets a) ++ asdus_octets asdus

write_asdu-append : (a : Asdu) (w : BerWriter) → write_asdu a w ≡ w ++ asdu_octets a
unfolding visible_string octet_string
write_asdu-append a w = write_primitives-append w (fields a)

write_asdus-append :
    (asdus : List Asdu) (w : BerWriter) → write_asdus asdus w ≡ w ++ asdus_octets asdus
unfolding sequence
write_asdus-append [] w = sym (append-nil w)
write_asdus-append (a ∷ asdus) w =
    write_asdus-append asdus (sequence w (write_asdu a))
    ∙ ap (λ (t : Bytes). t ++ asdus_octets asdus)
        (tlv-append w sequence_tag (write_asdu a) (asdu_octets a) (write_asdu-append a))
    ∙ append_assoc w (tlv_octets sequence_tag (asdu_octets a)) (asdus_octets asdus)

-- The content of the `savPdu`.
abbrev sav_octets : SvPdu → Bytes
sav_octets p =
    tlv_octets no_asdu_tag (encode_unsigned p.no_asdu)
    ++ (tlv_octets seq_asdu_tag (asdus_octets p.asdus) ++ [])

encode-octets : (p : SvPdu) → encode p ≡ tlv_octets sav_pdu (sav_octets p)
unfolding encode unsigned
encode-octets p = tlv-append [] sav_pdu _ (sav_octets p) λ w.
    tlv-append (unsigned w no_asdu_tag p.no_asdu) seq_asdu_tag (write_asdus p.asdus)
      (asdus_octets p.asdus) (write_asdus-append p.asdus)
    ∙ ap₂ (λ (t u : Bytes). t ++ u) (primitive-append w no_asdu_tag (encode_unsigned p.no_asdu))
        (sym (append-nil (tlv_octets seq_asdu_tag (asdus_octets p.asdus))))
    ∙ append_assoc w (tlv_octets no_asdu_tag (encode_unsigned p.no_asdu)) _

-- The contents of the fields.
u16_content : (v : ℕ) → v < 2 ^ 16 → octets_u16 (be_bytes 2 v) ≡ ok v
unfolding octets_u16
u16_content v h = ap ok {x = from_be (be_bytes 2 v)} {y = v} (from_be-be_bytes 2 v ∙ omega arith)

u32_content : (v : ℕ) → v < 2 ^ 32 → octets_u32 (be_bytes 4 v) ≡ ok v
unfolding octets_u32
u32_content v h = ap ok {x = from_be (be_bytes 4 v)} {y = v} (from_be-be_bytes 4 v ∙ omega arith)

text_content : (s : Std) (c : Bytes) → s.utf8 c ≡ true → text s c ≡ ok c
unfolding decode_visible_string
text_content s c h = rw h refl

time_content : (t : UtcTime) → length t.raw ≡ 8 → eight_octets t.raw ≡ ok t
time_content t h = rw h refl

option_content :
    {A : Type 0} (f : A → Bytes) (decoder : Bytes → SvResult A) (P : A → Type 0) (o : Option A)
    → ((a : A) → P a → decoder (f a) ≡ ok a)
    → OnSome P o
    → optionally decoder (Option.map f o) ≡ ok o
option_content f decoder P none e h = refl
option_content f decoder P (some a) e h = rw (e a h) refl

dat_set_content :
    (s : Std) (o : Option Bytes) → OnSome (λ c. s.utf8 c ≡ true) o → optionally (text s) o ≡ ok o
dat_set_content s none h = refl
dat_set_content s (some c) h = rw (text_content s c h) refl

-- A field of another number follows.
other_field :
    (n m : ℕ) (content rest : Bytes)
    → tag_eq (asdu_tag m) (asdu_tag n) ≡ false
    → m < 2 ^ 32
    → Follows (asdu_tag n) (tlv_octets (asdu_tag m) content ++ rest)
other_field n m content rest differs small = inr (asdu_tag m, content, rest, refl, differs, small)

abbrev after : Asdu → ℕ → Bytes
after a n = fields_octets (drop n (fields a))

decode_asdu_lem :
    (s : Std) (a : Asdu)
    → IsAsdu s a
    → length (asdu_octets a) < 2 ^ 64
    → decode_asdu s (asdu_octets a) ≡ ok a
unfolding decode_asdu tag_eq
decode_asdu_lem s a h small =
    let r₀ : BerReader = new (asdu_octets a) in
    let (r₁, e₀, s₁) =
      expect_step r₀ (asdu_tag 0) a.sv_id (after a 1) (omega arith) ([], refl, small) in
    let (r₂, e₁, s₂) =
      read_if_step r₁ (asdu_tag 1) a.dat_set (after a 2) (omega arith)
        (other_field 1 2 (be_bytes 2 a.smp_cnt) (after a 3) refl (omega arith)) s₁ in
    let (r₃, e₂, s₃) =
      expect_step r₂ (asdu_tag 2) (be_bytes 2 a.smp_cnt) (after a 3) (omega arith) s₂ in
    let (r₄, e₃, s₄) =
      expect_step r₃ (asdu_tag 3) (be_bytes 4 a.conf_rev) (after a 4) (omega arith) s₃ in
    let (r₅, e₄, s₅) =
      read_if_step r₄ (asdu_tag 4) (Option.map (λ (t : UtcTime). t.raw) a.refr_tm) (after a 5)
        (omega arith) (other_field 4 5 (a.smp_synch ∷ []) (after a 6) refl (omega arith)) s₄ in
    let (r₆, e₅, s₆) =
      expect_step r₅ (asdu_tag 5) (a.smp_synch ∷ []) (after a 6) (omega arith) s₅ in
    let (r₇, e₆, s₇) =
      read_if_step r₆ (asdu_tag 6) (Option.map (be_bytes 2) a.smp_rate) (after a 7) (omega arith)
        (other_field 6 7 a.sample (after a 8) refl (omega arith)) s₆ in
    let (r₈, e₇, s₈) = expect_step r₇ (asdu_tag 7) a.sample (after a 8) (omega arith) s₇ in
    let (r₉, e₈, s₉) =
      read_if_step r₈ (asdu_tag 8) (Option.map (be_bytes 2) a.smp_mod) [] (omega arith) (inl refl)
        s₈ in
    let c₀ = text_content s a.sv_id h.sv_id_utf8 in
    let c₁ = dat_set_content s a.dat_set h.dat_set_utf8 in
    let c₂ = u16_content a.smp_cnt h.smp_cnt_u16 in
    let c₃ = u32_content a.conf_rev h.conf_rev_u32 in
    let c₄ =
      option_content (λ (t : UtcTime). t.raw) eight_octets _ a.refr_tm time_content
        h.refr_tm_eight in
    let c₆ = option_content (be_bytes 2) octets_u16 _ a.smp_rate u16_content h.smp_rate_u16 in
    let c₈ = option_content (be_bytes 2) octets_u16 _ a.smp_mod u16_content h.smp_mod_u16 in
    rw (e₀, c₀, e₁, c₁, e₂, c₂, e₃, c₃, e₄, c₄, e₅, e₆, c₆, e₇, e₈, c₈) refl

decode_asdus-octets :
    (s : Std) (asdus : List Asdu) (fuel : ℕ) (r : BerReader)
    → All (IsAsdu s) asdus
    → length (asdus_octets asdus) ≤ fuel
    → Stands r (asdus_octets asdus)
    → decode_asdus s fuel r ≡ ok asdus
unfolding decode_asdus
decode_asdus-octets s [] zero r h enough stands = rw (at_end-is_empty r stands) refl
decode_asdus-octets s [] (suc fuel) r h enough stands = rw (at_end-is_empty r stands) refl
decode_asdus-octets s (a ∷ asdus) zero r (ha, h) enough stands =
    let content = asdu_octets a in
    let fits = Stands-fits r sequence_tag content (asdus_octets asdus) stands in
    let size = length-append (tlv_octets sequence_tag content) (asdus_octets asdus) in
    absurd (omega (arith, enough, fits, size, length-tlv_octets sequence_tag content fits))
decode_asdus-octets s (a ∷ asdus) (suc n) r (ha, h) enough stands =
    let content = asdu_octets a in
    let (r', e, stands') =
      read_tlv_step r sequence_tag content (asdus_octets asdus) (omega arith) stands in
    let fits = Stands-fits r sequence_tag content (asdus_octets asdus) stands in
    let size = length-append (tlv_octets sequence_tag content) (asdus_octets asdus) in
    let fuelled : length (asdus_octets asdus) ≤ n =
      omega (arith, enough, fits, size, length-tlv_octets sequence_tag content fits) in
    rw
      (
        not-is_empty r sequence_tag content (asdus_octets asdus) stands,
        e,
        decode_asdu_lem s a ha fits,
        decode_asdus-octets s asdus n r' h fuelled stands',
      )
      refl

-- The values of the Rust type.
pub record IsSvPdu (s : Std) (p : SvPdu) : Type 0 where
  pub no_asdu_u32 : p.no_asdu < 2 ^ 32
  pub asdus_IsAsdu : All (IsAsdu s) p.asdus

read_sav_lem :
    (s : Std) (p : SvPdu)
    → IsSvPdu s p
    → length (sav_octets p) < 2 ^ 64
    → read_sav s (new (sav_octets p)) ≡ ok p
unfolding read_sav tag_eq
read_sav_lem s p h small =
    let seq = asdus_octets p.asdus in
    let (r₁, e₀, s₁) =
      expect_step (new (sav_octets p)) no_asdu_tag (encode_unsigned p.no_asdu)
        (tlv_octets seq_asdu_tag seq ++ []) (omega arith) ([], refl, small) in
    let (r₂, e₁, s₂) =
      read_if_step r₁ security_tag none (tlv_octets seq_asdu_tag seq ++ []) (omega arith)
        (inr (seq_asdu_tag, seq, [], refl, refl, omega arith)) s₁ in
    let (r₃, e₂, s₃) = expect_step r₂ seq_asdu_tag seq [] (omega arith) s₂ in
    let fits = Stands-fits r₂ seq_asdu_tag seq [] s₂ in
    let e₃ =
      decode_asdus-octets s p.asdus (length seq) (new seq) h.asdus_IsAsdu (omega arith)
        ([], refl, fits) in
    let c = decode_integer-encode_unsigned p.no_asdu (omega (arith, h.no_asdu_u32)) in
    rw (e₀, c, ltb-true p.no_asdu (2 ^ 32) h.no_asdu_u32, e₁, e₂, e₃) refl

-- For a PDU of the Rust type and an input below 2 ^ 64 octets: `decode` reads back the PDU that `encode` wrote,
-- its optional fields present or absent as they were, whatever follows it.
pub decode-encode_sv :
    (s : Std) (p : SvPdu) (rest : Bytes)
    → IsSvPdu s p
    → length (encode p ++ rest) < 2 ^ 64
    → decode s (encode p ++ rest) ≡ ok p
unfolding decode tag_eq
decode-encode_sv s p rest h small =
    let content : Bytes = sav_octets p in
    let small' : length (tlv_octets sav_pdu content ++ rest) < 2 ^ 64 =
      rw (encode-octets p) at small in
    let fits : length content < 2 ^ 64 = omega (
      arith,
      small',
      content-le-tlv_octets sav_pdu content,
      length-append (tlv_octets sav_pdu content) rest,
    ) in
    rw (encode-octets p, read_tlv-tlv_octets [] rest sav_pdu content (omega arith) small')
      (read_sav_lem s p h fits)
