-- ===== src/Sv/Pdu.antt =====
-- crates/iec61850-sv/src/pdu.rs and error.rs: the `savPdu` and its ASDUs. Integers have the width of the Rust
-- type; the loop over the ASDUs runs on fuel, one per octet of the sequence.
pub mod RoundTrip
use iec_61850_studio.Base.{
  ℕ, zero, suc, ◌^◌, List, [], ◌∷◌, Option, none, some, Bool, true, false, length, ltb, ◌==◌, not,
  if◌then◌else◌,
}
use mathlib.Core.Option
use iec_61850_studio.Base.Result.{Result, ok, err, ◌>>=◌, map_err}
use iec_61850_studio.Base.Words.{Bytes, be_bytes, from_be}
use iec_61850_studio.Ber.Error.{Tag, BerError, application, context, out_of_fuel}
use iec_61850_studio.Ber.Tag.{tag_eq, new as new_tag}
use iec_61850_studio.Ber.Primitives.{decode_integer, decode_visible_string}
use iec_61850_studio.Ber.Reader.{BerReader, new, reader, read_tlv, expect, read_if, is_empty}
use iec_61850_studio.Ber.Writer.{
  BerWriter, tlv, unsigned, visible_string, octet_string, octet_string_if, sequence,
}
use iec_61850_studio.Ber.Std.{Std}
use iec_61850_studio.Ber.Data.{UtcTime}
use iec_61850_studio.Ethernet.{L2Error}
use iec_61850_studio.Sv.NineTwoLe.{NineTwoLe, to_bytes, from_bytes}

pub data SvError : Type 0 where
  malformed : SvError
  ber : BerError → SvError
  l2 : L2Error → SvError

abbrev pub SvResult : Type 0 → Type 0
SvResult A = Result SvError A

abbrev pub sav_pdu : Tag
sav_pdu = new_tag application true 0

-- `sv_tags` and `asdu_tags`: `Tag::context(number, constructed)`
abbrev pub no_asdu_tag : Tag
no_asdu_tag = new_tag context false 0

abbrev pub security_tag : Tag
security_tag = new_tag context true 1

abbrev pub seq_asdu_tag : Tag
seq_asdu_tag = new_tag context true 2

abbrev pub asdu_tag : ℕ → Tag
asdu_tag number = new_tag context false number

pub record Asdu : Type 0 where
  pub sv_id : Bytes
  pub dat_set : Option Bytes
  pub smp_cnt : ℕ
  pub conf_rev : ℕ
  pub refr_tm : Option UtcTime
  pub smp_synch : ℕ
  pub smp_rate : Option ℕ
  pub sample : Bytes
  pub smp_mod : Option ℕ

pub record SvPdu : Type 0 where
  pub no_asdu : ℕ
  pub asdus : List Asdu

unfoldable pub set_9_2le : Asdu → NineTwoLe → Asdu
set_9_2le a n = record a { sample = to_bytes n }

unfoldable pub as_9_2le : Asdu → Option NineTwoLe
as_9_2le a = from_bytes a.sample

-- The body of `w.sequence` for an ASDU.
abbrev pub write_asdu : Asdu → BerWriter → BerWriter
write_asdu a w₀ =
    let w₁ = visible_string w₀ (asdu_tag 0) a.sv_id in
    let w₂ = octet_string_if w₁ (asdu_tag 1) a.dat_set in
    let w₃ = octet_string w₂ (asdu_tag 2) (be_bytes 2 a.smp_cnt) in
    let w₄ = octet_string w₃ (asdu_tag 3) (be_bytes 4 a.conf_rev) in
    let w₅ = octet_string_if w₄ (asdu_tag 4) (Option.map (λ (t : UtcTime). t.raw) a.refr_tm) in
    let w₆ = octet_string w₅ (asdu_tag 5) (a.smp_synch ∷ []) in
    let w₇ = octet_string_if w₆ (asdu_tag 6) (Option.map (be_bytes 2) a.smp_rate) in
    let w₈ = octet_string w₇ (asdu_tag 7) a.sample in
    octet_string_if w₈ (asdu_tag 8) (Option.map (be_bytes 2) a.smp_mod)

abbrev pub write_asdus : List Asdu → BerWriter → BerWriter
write_asdus [] w = w
write_asdus (a ∷ asdus) w = write_asdus asdus (sequence w (write_asdu a))

unfoldable pub encode : SvPdu → Bytes
encode p =
    tlv [] sav_pdu (λ w. tlv (unsigned w no_asdu_tag p.no_asdu) seq_asdu_tag (write_asdus p.asdus))

abbrev pub from_ber : {A : Type 0} → Result BerError A → SvResult A
from_ber m = map_err ber m

unfoldable pub octets_u16 : Bytes → SvResult ℕ
octets_u16 c = if length c == 2 then ok (from_be c) else err malformed

unfoldable pub octets_u32 : Bytes → SvResult ℕ
octets_u32 c = if length c == 4 then ok (from_be c) else err malformed

-- `c.first()`
abbrev pub octet : Bytes → SvResult ℕ
octet [] = err malformed
octet (b ∷ _) = ok b

abbrev pub eight_octets : Bytes → SvResult UtcTime
eight_octets c = if length c == 8 then ok (record { raw = c }) else err malformed

abbrev pub text : Std → Bytes → SvResult Bytes
text s c = from_ber (decode_visible_string s.utf8 c)

-- The match on an optional field.
abbrev pub optionally : {A : Type 0} → (Bytes → SvResult A) → Option Bytes → SvResult (Option A)
optionally decoder none = ok none
optionally decoder (some c) = do v ← decoder c; ok (some v)

unfoldable pub decode_asdu : Std → Bytes → SvResult Asdu
decode_asdu s content = do
  (c₀, f₁) ← from_ber (expect (new content) (asdu_tag 0))
  sv_id ← text s c₀
  (c₁, f₂) ← from_ber (read_if f₁ (asdu_tag 1))
  dat_set ← optionally (text s) c₁
  (c₂, f₃) ← from_ber (expect f₂ (asdu_tag 2))
  smp_cnt ← octets_u16 c₂
  (c₃, f₄) ← from_ber (expect f₃ (asdu_tag 3))
  conf_rev ← octets_u32 c₃
  (c₄, f₅) ← from_ber (read_if f₄ (asdu_tag 4))
  refr_tm ← optionally eight_octets c₄
  (c₅, f₆) ← from_ber (expect f₅ (asdu_tag 5))
  smp_synch ← octet c₅
  (c₆, f₇) ← from_ber (read_if f₆ (asdu_tag 6))
  smp_rate ← optionally octets_u16 c₆
  (sample, f₈) ← from_ber (expect f₇ (asdu_tag 7))
  (c₈, _) ← from_ber (read_if f₈ (asdu_tag 8))
  smp_mod ← optionally octets_u16 c₈
  ok (record {
    sv_id = sv_id;
    dat_set = dat_set;
    smp_cnt = smp_cnt;
    conf_rev = conf_rev;
    refr_tm = refr_tm;
    smp_synch = smp_synch;
    smp_rate = smp_rate;
    sample = sample;
    smp_mod = smp_mod;
  })

-- The loop `while !ar.is_empty()`, which does not look at the tags.
unfoldable pub decode_asdus : Std → ℕ → BerReader → SvResult (List Asdu)
decode_asdus s zero r = if is_empty r then ok [] else err (ber out_of_fuel)
decode_asdus s (suc n) r =
    let rest = (do
      (t, r') ← from_ber (read_tlv r)
      a ← decode_asdu s t.content
      asdus ← decode_asdus s n r'
      ok (a ∷ asdus)) in
    if is_empty r then ok [] else rest

-- `u32::try_from` of an `i64`, whose negative numbers are the patterns from 2 ^ 63 on.
abbrev pub u32_try_from : ℕ → SvResult ℕ
u32_try_from v = if ltb v (2 ^ 32) then ok v else err malformed

-- The fields behind an accepted tag.
unfoldable pub read_sav : Std → BerReader → SvResult SvPdu
read_sav s r₀ = do
  (c₀, r₁) ← from_ber (expect r₀ no_asdu_tag)
  v ← from_ber (decode_integer c₀)
  no_asdu ← u32_try_from v
  (_, r₂) ← from_ber (read_if r₁ security_tag)
  (seq, _) ← from_ber (expect r₂ seq_asdu_tag)
  asdus ← decode_asdus s (length seq) (new seq)
  ok (record { no_asdu = no_asdu; asdus = asdus })

unfoldable pub decode : Std → Bytes → SvResult SvPdu
decode s bytes = do
  (apdu, _) ← from_ber (read_tlv (new bytes))
  (if not (tag_eq apdu.tag sav_pdu) then err malformed else read_sav s (reader apdu))
