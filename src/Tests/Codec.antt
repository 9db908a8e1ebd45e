-- ===== src/Tests/Codec.antt =====
-- The BER codec on concrete input.
use iec_61850_studio.Base.{
  ◌*◌, ◌/◌, ◌%◌, ◌^◌, ◌≤◌, [], ◌∷◌, ◌++◌, length, true, false, leb, if◌then◌else◌, ◌==◌, ==_iff,
  ◌≡◌, refl, arith, length-append, ap,
}
use iec_61850_studio.Base.Result.{ok, err}
use iec_61850_studio.Ber.Error.{Tag, unexpected_eof, context, depth_exceeded}
use iec_61850_studio.Ber.Ends.{Ends}
use iec_61850_studio.Ber.Tag
use iec_61850_studio.Ber.Base128.{base128_octets, base128_stack}
use iec_61850_studio.Ber.Length.{encode_len, decode_len}
use iec_61850_studio.Ber.Primitives.{encode_bool}
use iec_61850_studio.Ber.Reader.{Tlv, BerReader, read_tlv}
use iec_61850_studio.Ber.Reader.Laws.{Within, read_tlv-Within}
use iec_61850_studio.Ber.Writer.{tlv, boolean, visible_string, primitive}
use iec_61850_studio.Ber.Writer.Laws.{tlv_octets}
use iec_61850_studio.Ber.Std.{Std, IsIeee}
use iec_61850_studio.Ber.Data.{
  MmsData, bool, visible, structure, nil, cons, encode, decode_data, max_nesting_depth,
}
use iec_61850_studio.Ber.Data.Shape.{depth, IsEncodable}
use iec_61850_studio.Ber.Data.RoundTrip.{decode_data-encode}
use iec_61850_studio.Ber.Data.Bounds.{decode_data-Ends}

-- A library whose narrow floats are the upper halves of the wide ones.
abbrev pub halves : Std
halves = record {
  utf8 = λ _. true;
  as_f32 = λ v. v / 2 ^ 32 % 2 ^ 32;
  as_f64 = λ v. v * 2 ^ 32;
  f64_eq = λ a b. a == b;
}

pub halves-IsIeee : IsIeee halves
halves-IsIeee = record {
  as_f32-lt = λ v. omega arith;
  exact = λ v e. (==_iff (v / 2 ^ 32 % 2 ^ 32 * 2 ^ 32) v).0 e;
}

abbrev pair : MmsData
pair = structure (cons (bool true) (cons (visible (97 ∷ 98 ∷ [])) nil))

pair_octets : encode halves pair [] ≡ 0xa2 ∷ 7 ∷ 0x83 ∷ 1 ∷ 0xff ∷ 0x8a ∷ 2 ∷ 97 ∷ 98 ∷ []
unfolding encode tlv boolean visible_string primitive encode_bool Tag.encode encode_len
pair_octets = refl

pair-IsEncodable : IsEncodable halves pair
unfolding IsEncodable
pair-IsEncodable = (tt, ((refl, omega arith), tt))

decode_data-encode_example :
    decode_data halves (encode halves pair [] ++ 1 ∷ [])
    ≡ (if leb (depth pair) max_nesting_depth then ok pair else err depth_exceeded)
decode_data-encode_example =
    decode_data-encode halves pair (1 ∷ []) halves-IsIeee pair-IsEncodable
      (omega (arith, length-append (encode halves pair []) (1 ∷ []), ap length pair_octets))

decode_data-Ends_example :
    Ends (λ d. depth d ≤ max_nesting_depth) (decode_data halves (0x83 ∷ 1 ∷ 0xff ∷ []))
decode_data-Ends_example = decode_data-Ends halves (0x83 ∷ 1 ∷ 0xff ∷ []) (omega arith)

abbrev wide_tag : Tag
wide_tag = record { class = context; constructed = true; number = 201 }

wide_octets : tlv_octets wide_tag (7 ∷ []) ≡ 0xbf ∷ 0x81 ∷ 0x49 ∷ 1 ∷ 7 ∷ []
unfolding Tag.encode encode_len base128_octets base128_stack
wide_octets = refl

abbrev flag : BerReader
flag = record { bytes = 0x83 ∷ 1 ∷ 0xff ∷ []; pos = 0 }

abbrev flag_tlv : Tlv
flag_tlv = record {
  tag = record { class = context; constructed = false; number = 3 };
  content = 0xff ∷ [];
}

flag_read : read_tlv flag ≡ ok (flag_tlv, record flag { pos = 3 })
unfolding read_tlv Tag.decode decode_len
flag_read = refl

read_tlv-Within_example : Within flag flag_tlv (record flag { pos = 3 })
read_tlv-Within_example =
    read_tlv-Within flag flag_tlv (record flag { pos = 3 }) flag_read (omega arith)

two_octets_read : decode_len (0x82 ∷ 3 ∷ 232 ∷ []) ≡ ok (1000, 3)
unfolding decode_len
two_octets_read = refl

flag_tag_read : Tag.decode (0x83 ∷ 1 ∷ []) ≡ ok (flag_tlv.tag, 1)
unfolding Tag.decode
flag_tag_read = refl

unfinished_tag_read : Tag.decode (0xbf ∷ 0x81 ∷ []) ≡ err unexpected_eof
unfolding Tag.decode
unfinished_tag_read = refl
