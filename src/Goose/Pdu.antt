-- ===== src/Goose/Pdu.antt =====
-- crates/iec61850-goose/src/pdu.rs and error.rs: the `goosePdu`. An integer of the PDU is a `u32`.
pub mod RoundTrip
use iec_61850_studio.Base.{
  ℕ, ◌^◌, [], Option, none, some, Bool, true, false, length, ltb, ◌==◌, not, if◌then◌else◌,
}
use iec_61850_studio.Base.Result.{Result, ok, err, ◌>>=◌, map_err}
use iec_61850_studio.Base.Words.{Bytes}
use iec_61850_studio.Ber.Error.{Tag, BerError, application, context}
use iec_61850_studio.Ber.Tag.{tag_eq, new as new_tag}
use iec_61850_studio.Ber.Primitives.{decode_unsigned, decode_bool, decode_visible_string}
use iec_61850_studio.Ber.Reader.{BerReader, new, reader, read_tlv, expect}
use iec_61850_studio.Ber.Writer.{BerWriter, primitive, tlv, boolean, unsigned, visible_string}
use iec_61850_studio.Ber.Std.{Std}
use iec_61850_studio.Ber.Data.{UtcTime, Items, encode_items, decode_items, decode as decode_value}
use iec_61850_studio.Ethernet.{L2Error}

pub data GooseError : Type 0 where
  malformed : GooseError
  ber : BerError → GooseError
  l2 : L2Error → GooseError

abbrev pub GooseResult : Type 0 → Type 0
GooseResult A = Result GooseError A

abbrev pub goose_apdu : Tag
goose_apdu = new_tag application true 1

-- `Tag::context(number, false)`
abbrev pub field_tag : ℕ → Tag
field_tag number = new_tag context false number

abbrev pub all_data_tag : Tag
all_data_tag = new_tag context true 11

pub record GoosePdu : Type 0 where
  pub gocb_ref : Bytes
  pub time_allowed_to_live : ℕ
  pub dat_set : Bytes
  pub go_id : Bytes
  pub t : UtcTime
  pub st_num : ℕ
  pub sq_num : ℕ
  pub test : Bool
  pub conf_rev : ℕ
  pub nds_com : Bool
  pub num_dat_set_entries : ℕ
  pub all_data : Items

-- The body of the closure that `encode` gives to `tlv`.
abbrev pub write_fields : Std → GoosePdu → BerWriter → BerWriter
write_fields s p w₀ =
    let w₁ = visible_string w₀ (field_tag 0) p.gocb_ref in
    let w₂ = unsigned w₁ (field_tag 1) p.time_allowed_to_live in
    let w₃ = visible_string w₂ (field_tag 2) p.dat_set in
    let w₄ = visible_string w₃ (field_tag 3) p.go_id in
    let w₅ = primitive w₄ (field_tag 4) p.t.raw in
    let w₆ = unsigned w₅ (field_tag 5) p.st_num in
    let w₇ = unsigned w₆ (field_tag 6) p.sq_num in
    let w₈ = boolean w₇ (field_tag 7) p.test in
    let w₉ = unsigned w₈ (field_tag 8) p.conf_rev in
    let w₁₀ = boolean w₉ (field_tag 9) p.nds_com in
    let w₁₁ = unsigned w₁₀ (field_tag 10) p.num_dat_set_entries in
    tlv w₁₁ all_data_tag (encode_items s p.all_data)

unfoldable pub encode : Std → GoosePdu → Bytes
encode s p = tlv [] goose_apdu (write_fields s p)

abbrev pub from_ber : {A : Type 0} → Result BerError A → GooseResult A
from_ber m = map_err ber m

-- `r.expect(tag)?` and a decoder of the content
abbrev pub read_field :
    {A : Type 0} → BerReader → Tag → (Bytes → GooseResult A) → GooseResult (A × BerReader)
read_field r tag content = do
  (found, r') ← from_ber (expect r tag)
  value ← content found
  ok (value, r')

unfoldable pub read_visible : Std → BerReader → Tag → GooseResult (Bytes × BerReader)
read_visible s r tag = read_field r tag (λ c. from_ber (decode_visible_string s.utf8 c))

-- `u32::try_from(v)`
abbrev pub as_u32 : ℕ → GooseResult ℕ
as_u32 v = if ltb v (2 ^ 32) then ok v else err malformed

unfoldable pub read_u32 : BerReader → Tag → GooseResult (ℕ × BerReader)
read_u32 r tag = read_field r tag (λ c. from_ber (decode_unsigned c) >>= as_u32)

unfoldable pub read_bool : BerReader → Tag → GooseResult (Bool × BerReader)
read_bool r tag = read_field r tag (λ c. from_ber (decode_bool c))

-- `try_into()` of the content as eight octets
abbrev pub as_utc : Bytes → GooseResult UtcTime
as_utc c = if length c == 8 then ok (record { raw = c }) else err malformed

unfoldable pub read_utc : BerReader → Tag → GooseResult (UtcTime × BerReader)
read_utc r tag = read_field r tag as_utc

-- The fields of an APDU whose tag was accepted.
unfoldable pub read_fields : Std → BerReader → GooseResult GoosePdu
read_fields s r₀ = do
  (gocb_ref, r₁) ← read_visible s r₀ (field_tag 0)
  (time_allowed_to_live, r₂) ← read_u32 r₁ (field_tag 1)
  (dat_set, r₃) ← read_visible s r₂ (field_tag 2)
  (go_id, r₄) ← read_visible s r₃ (field_tag 3)
  (t, r₅) ← read_utc r₄ (field_tag 4)
  (st_num, r₆) ← read_u32 r₅ (field_tag 5)
  (sq_num, r₇) ← read_u32 r₆ (field_tag 6)
  (test, r₈) ← read_bool r₇ (field_tag 7)
  (conf_rev, r₉) ← read_u32 r₈ (field_tag 8)
  (nds_com, r₁₀) ← read_bool r₉ (field_tag 9)
  (num_dat_set_entries, r₁₁) ← read_u32 r₁₀ (field_tag 10)
  (content, _) ← from_ber (expect r₁₁ all_data_tag)
  all_data ← from_ber (decode_items (decode_value s) (length content) (new content))
  ok (record {
    gocb_ref = gocb_ref;
    time_allowed_to_live = time_allowed_to_live;
    dat_set = dat_set;
    go_id = go_id;
    t = t;
    st_num = st_num;
    sq_num = sq_num;
    test = test;
    conf_rev = conf_rev;
    nds_com = nds_com;
    num_dat_set_entries = num_dat_set_entries;
    all_data = all_data;
  })

unfoldable pub decode : Std → Bytes → GooseResult GoosePdu
decode s bytes = do
  (apdu, _) ← from_ber (read_tlv (new bytes))
  (if not (tag_eq apdu.tag goose_apdu) then err malformed else read_fields s (reader apdu))
