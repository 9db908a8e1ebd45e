-- ===== src/Ber/Data.antt =====
-- data.rs: the MMS `Data` choice, its encoder and its decoder with the bound on nesting.
pub mod Tags
pub mod Shape
pub mod RoundTrip
pub mod Bounds
use iec_61850_studio.Base.{
  ℕ, zero, suc, ◌+◌, ◌-◌, ◌^◌, [], ◌∷◌, Option, none, some, length, take, drop, Bool, true, false,
  ltb, ◌==◌, if◌then◌else◌,
}
use iec_61850_studio.Base.Result.{ok, err, ◌>>=◌}
use iec_61850_studio.Base.Words.{Bytes, be_bytes, from_be}
use iec_61850_studio.Ber.Error.{
  BerError, BerResult, bad_string, bad_bit_string, depth_exceeded, out_of_fuel,
}
use iec_61850_studio.Ber.Primitives.{
  BitString, decode_bool, decode_integer, decode_unsigned, decode_visible_string,
}
use iec_61850_studio.Ber.Reader.{Tlv, BerReader, new, is_empty, read_tlv}
use iec_61850_studio.Ber.Writer.{
  BerWriter, primitive, tlv, boolean, integer, unsigned, octet_string, visible_string,
  bit_string as write_bit_string,
}
use iec_61850_studio.Ber.Std.{Std}

-- Eight octets: seconds, a fraction of three octets, quality.
pub record UtcTime : Type 0 where
  pub raw : Bytes

unfoldable pub seconds : UtcTime → ℕ
seconds t = from_be (take 4 t.raw)

unfoldable pub fraction : UtcTime → ℕ
fraction t = from_be (take 3 (drop 4 t.raw))

-- A `Vec<MmsData>` is `Items`; an `i64`, a `u64` and an `f64` are 64-bit patterns.
mutual
  pub data MmsData : Type 0 where
    bool : Bool → MmsData
    int : ℕ → MmsData
    uint : ℕ → MmsData
    float : ℕ → MmsData
    bit_string : BitString → MmsData
    octets : Bytes → MmsData
    visible : Bytes → MmsData
    mms_string : Bytes → MmsData
    utc : UtcTime → MmsData
    binary_time : Bytes → MmsData
    structure : Items → MmsData
    array : Items → MmsData

  pub data Items : Type 0 where
    nil : Items
    cons : MmsData → Items → Items

abbrev pub max_nesting_depth : ℕ
max_nesting_depth = 32

unfoldable pub encode_float : Std → ℕ → Bytes
encode_float s value =
    let as32 = s.as_f32 value in
    if s.f64_eq (s.as_f64 as32) value then 8 ∷ be_bytes 4 as32 else 11 ∷ be_bytes 8 value

unfoldable pub decode_float : Std → Bytes → BerResult ℕ
decode_float s [] = err BerError.structure
decode_float s (_ ∷ ieee) =
    if length ieee == 4
    then ok (s.as_f64 (from_be ieee))
    else if length ieee == 8
    then ok (from_be ieee)
    else err BerError.structure

unfoldable pub decode_bit_string : Bytes → BerResult BitString
decode_bit_string [] = err bad_bit_string
decode_bit_string (unused ∷ bytes) =
    if ltb 7 unused then err bad_bit_string else ok (record { unused_bits = unused; bytes = bytes })

unfoldable pub decode_utc : Bytes → BerResult UtcTime
decode_utc c = if length c == 8 then ok (record { raw = c }) else err BerError.structure

-- `MmsData::encode`
unfoldable mutual
  pub encode : Std → MmsData → BerWriter → BerWriter
  encode s (bool v) w = boolean w Tags.boolean v
  encode s (int v) w = integer w Tags.integer v
  encode s (uint v) w = unsigned w Tags.unsigned v
  encode s (float v) w = primitive w Tags.floating_point (encode_float s v)
  encode s (bit_string bs) w = write_bit_string w Tags.bit_string bs
  encode s (octets b) w = octet_string w Tags.octet_string b
  encode s (visible t) w = visible_string w Tags.visible_string t
  encode s (mms_string t) w = primitive w Tags.mms_string t
  encode s (utc u) w = primitive w Tags.utc_time u.raw
  encode s (binary_time b) w = primitive w Tags.binary_time b
  encode s (structure items) w = tlv w Tags.structure (encode_items s items)
  encode s (array items) w = tlv w Tags.array (encode_items s items)

  pub encode_items : Std → Items → BerWriter → BerWriter
  encode_items s nil w = w
  encode_items s (cons it items) w = encode_items s items (encode s it w)

-- The primitive arms of the match, in the order of the source.
decode_primitive : Std → ℕ → Bytes → BerResult MmsData
decode_primitive s n c =
    if n == 3
    then (do v ← decode_bool c; ok (bool v))
    else if n == 5
    then (do v ← decode_integer c; ok (int v))
    else if n == 6
    then (do v ← decode_unsigned c; ok (uint v))
    else if n == 7
    then (do v ← decode_float s c; ok (float v))
    else if n == 9
    then ok (octets c)
    else if n == 10
    then (do v ← decode_visible_string s.utf8 c; ok (visible v))
    else if n == 16
    then (if s.utf8 c then ok (mms_string c) else err bad_string)
    else if n == 4
    then (do v ← decode_bit_string c; ok (bit_string v))
    else if n == 14
    then (do v ← decode_bit_string c; ok (bit_string v))
    else if n == 12
    then ok (binary_time c)
    else if n == 17
    then (do v ← decode_utc c; ok (utc v))
    else err BerError.structure

-- The match on the number and the form of the tag; its class is not looked at.
dispatch : Std → (Bytes → BerResult Items) → Tlv → BerResult MmsData
unfolding decode_primitive
dispatch s list t =
    let compound = λ (items : Items → MmsData). (do v ← list t.content; ok (items v)) in
    if t.tag.constructed
    then (if t.tag.number == 2
        then compound structure
        else if t.tag.number == 1
        then compound array
        else err BerError.structure)
    else decode_primitive s t.tag.number t.content

-- The loop of `decode_list`. Each round reads two octets at least, so that the length of the
-- content is fuel enough.
unfoldable pub decode_items : (Tlv → BerResult MmsData) → ℕ → BerReader → BerResult Items
decode_items element zero r = if is_empty r then ok nil else err out_of_fuel
decode_items element (suc n) r =
    let rest = (do
      (t, r') ← read_tlv r
      it ← element t
      items ← decode_items element n r'
      ok (cons it items)) in
    if is_empty r then ok nil else rest

-- `decode_at(tlv, depth)` with the levels that are left, `MAX_NESTING_DEPTH - depth`.
unfoldable pub decode_at : Std → ℕ → Tlv → BerResult MmsData
unfolding dispatch
decode_at s zero t = dispatch s (λ _. err depth_exceeded) t
decode_at s (suc levels) t =
    dispatch s (λ c. decode_items (decode_at s levels) (length c) (new c)) t

unfoldable pub decode : Std → Tlv → BerResult MmsData
decode s t = decode_at s max_nesting_depth t

unfoldable pub decode_data : Std → Bytes → BerResult MmsData
decode_data s bytes = do (t, _) ← read_tlv (new bytes); decode s t

-- The accessors.
unfoldable pub as_bool : MmsData → Option Bool
as_bool (bool b) = some b
as_bool _ = none

unfoldable pub as_i64 : MmsData → Option ℕ
as_i64 (int v) = some v
as_i64 (uint v) = if ltb v (2 ^ 63) then some v else none
as_i64 _ = none

unfoldable pub as_str : MmsData → Option Bytes
as_str (visible s) = some s
as_str (mms_string s) = some s
as_str _ = none
