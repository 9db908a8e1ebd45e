-- ===== src/Ber/Data/Bounds.antt =====
-- `decode` on any input: it ends, and what it returns nests at most 32 levels.
use iec_61850_studio.Base.{
  ℕ, zero, suc, ◌+◌, ◌≤◌, [], ◌∷◌, length, ◌==◌, Bool, ◌≡◌, ◌≢◌, sym, ap, arith, leb-true, subst,
}
use iec_61850_studio.Base.Result.{ok, err, ◌>>=◌}
use iec_61850_studio.Base.Words.{Bytes, IsBytes}
use iec_61850_studio.Ber.Error.{BerResult, depth_exceeded, out_of_fuel}
use iec_61850_studio.Ber.Ends.{Ends, Ends-of, Ends-if, Ends-bind, Ends-mono}
use iec_61850_studio.Ber.Primitives.{
  decode_bool, decode_integer, decode_unsigned, decode_visible_string,
}
use iec_61850_studio.Ber.Reader.{Tlv, BerReader, new, is_empty, read_tlv}
use iec_61850_studio.Ber.Reader.Laws.{read_tlv-Ends}
use iec_61850_studio.Ber.Std.{Std}
use iec_61850_studio.Ber.Data.Shape.{depth, depth_items}
use iec_61850_studio.Ber.Data.{
  MmsData, Items, bool, int, uint, float, bit_string, visible, utc, nil, decode_float,
  decode_bit_string, decode_utc, decode_primitive, dispatch, decode_items, decode_at, decode,
  decode_data, max_nesting_depth,
}

-- A decoder of a scalar and the constructor it feeds.
module _ {A : Type 0} (make : A → MmsData) (levels : ℕ) where
  scalar-Ends :
      (m : BerResult A)
      → m ≢ err out_of_fuel
      → ((a : A) → depth (make a) ≤ levels)
      → Ends (λ d. depth d ≤ levels) (do v ← m; ok (make v))
  scalar-Ends m ends h = Ends-bind (λ _. Unit {0}) _ m _ (Ends-of _ m ends (λ _ _. tt)) (λ a _. h a)

decode_bool-ne : (c : Bytes) → decode_bool c ≢ err out_of_fuel
unfolding decode_bool
decode_bool-ne [] = λ e. cc
decode_bool-ne (b ∷ []) = λ e. cc
decode_bool-ne (b ∷ c ∷ rest) = λ e. cc

decode_integer-ne : (c : Bytes) → decode_integer c ≢ err out_of_fuel
unfolding decode_integer
decode_integer-ne c = ground arith

decode_unsigned-ne : (c : Bytes) → decode_unsigned c ≢ err out_of_fuel
unfolding decode_unsigned
decode_unsigned-ne c = ground arith

decode_float-ne : (s : Std) (c : Bytes) → decode_float s c ≢ err out_of_fuel
unfolding decode_float
decode_float-ne s [] = λ e. cc
decode_float-ne s (f ∷ c) = ground arith

decode_string-ne :
    (utf8 : Bytes → Bool) (c : Bytes) → decode_visible_string utf8 c ≢ err out_of_fuel
unfolding decode_visible_string
decode_string-ne utf8 c = ground arith

decode_bit_string-ne : (c : Bytes) → decode_bit_string c ≢ err out_of_fuel
unfolding decode_bit_string
decode_bit_string-ne [] = λ e. cc
decode_bit_string-ne (u ∷ c) = ground arith

decode_utc-ne : (c : Bytes) → decode_utc c ≢ err out_of_fuel
unfolding decode_utc
decode_utc-ne c = ground arith

-- A scalar, whatever the content.
decode_primitive-Ends :
    (s : Std) (n : ℕ) (c : Bytes) (levels : ℕ)
    → Ends (λ d. depth d ≤ levels) (decode_primitive s n c)
unfolding decode_primitive depth
decode_primitive-Ends s n c levels =
    let low : 0 ≤ levels = omega arith in
    Ends-if _ (n == 3) _ _ (scalar-Ends bool levels (decode_bool c) (decode_bool-ne c) (λ _. low)) (
      Ends-if _ (n == 5) _ _
        (scalar-Ends int levels (decode_integer c) (decode_integer-ne c) (λ _. low))
        (Ends-if _ (n == 6) _ _
          (scalar-Ends uint levels (decode_unsigned c) (decode_unsigned-ne c) (λ _. low))
          (Ends-if _ (n == 7) _ _
            (scalar-Ends float levels (decode_float s c) (decode_float-ne s c) (λ _. low))
            (Ends-if _ (n == 9) _ _ low (
              Ends-if _ (n == 10) _ _
                (scalar-Ends visible levels (decode_visible_string s.utf8 c)
                  (decode_string-ne s.utf8 c) (λ _. low))
                (Ends-if _ (n == 16) _ _ (Ends-if _ (s.utf8 c) _ _ low (λ e. cc)) (
                  Ends-if _ (n == 4) _ _
                    (scalar-Ends bit_string levels (decode_bit_string c) (decode_bit_string-ne c)
                      (λ _. low))
                    (Ends-if _ (n == 14) _ _
                      (scalar-Ends bit_string levels (decode_bit_string c) (decode_bit_string-ne c)
                        (λ _. low))
                      (Ends-if _ (n == 12) _ _ low (
                        Ends-if _ (n == 17) _ _
                          (scalar-Ends utc levels (decode_utc c) (decode_utc-ne c) (λ _. low))
                          (λ e. cc)))))))))))

dispatch-Ends :
    (s : Std) (list : Bytes → BerResult Items) (t : Tlv) (levels : ℕ)
    → Ends (λ items. suc (depth_items items) ≤ levels) (list t.content)
    → Ends (λ d. depth d ≤ levels) (dispatch s list t)
unfolding dispatch depth
dispatch-Ends s list t levels h =
    Ends-if _ t.tag.constructed _ _
      (Ends-if _ (t.tag.number == 2) _ _ (Ends-bind _ _ (list t.content) _ h (λ items p. p)) (
        Ends-if _ (t.tag.number == 1) _ _ (Ends-bind _ _ (list t.content) _ h (λ items p. p))
          (λ e. cc)))
      (decode_primitive-Ends s t.tag.number t.content levels)

-- The loop ends within the octets that are left, if the reader of elements does.
decode_items-Ends :
    (element : Tlv → BerResult MmsData) (levels fuel : ℕ) (r : BerReader)
    → ((t : Tlv) → IsBytes t.content → Ends (λ d. depth d ≤ levels) (element t))
    → IsBytes r.bytes
    → length r.bytes ≤ fuel + r.pos
    → Ends (λ items. depth_items items ≤ levels) (decode_items element fuel r)
unfolding decode_items depth_items is_empty
decode_items-Ends element levels zero r h hb enough =
    rw (leb-true (length r.bytes) r.pos (omega arith)) (omega arith)
decode_items-Ends element levels (suc n) r h hb enough =
    Ends-if _ (is_empty r) (ok nil) _ (omega arith) (
      Ends-bind _ _ (read_tlv r) _ (read_tlv-Ends r hb) (λ (t, r') w.
        Ends-bind _ _ (element t) _ (h t w.octets) (λ it low.
          Ends-bind _ _ (decode_items element n r') _
            (decode_items-Ends element levels n r' h (subst IsBytes (sym w.same_bytes) hb) (
              let same : length r'.bytes ≡ length r.bytes = ap length w.same_bytes in
              omega (arith, w.moves, enough)))
            (λ items lows. omega (arith, low, lows)))))

pub decode_at-Ends :
    (s : Std) (levels : ℕ) (t : Tlv)
    → IsBytes t.content
    → Ends (λ d. depth d ≤ levels) (decode_at s levels t)
unfolding decode_at
decode_at-Ends s zero t hb = dispatch-Ends s (λ _. err depth_exceeded) t 0 (λ e. cc)
decode_at-Ends s (suc levels) t hb =
    dispatch-Ends s (λ c. decode_items (decode_at s levels) (length c) (new c)) t (suc levels)
      (Ends-mono _ _ (decode_items (decode_at s levels) (length t.content) (new t.content))
        (λ items low. omega (arith, low))
        (decode_items-Ends (decode_at s levels) levels (length t.content) (new t.content)
          (decode_at-Ends s levels) hb (omega arith)))

-- On every input of bytes decoding ends within the fuel of its loops, and what it returns nests at most 32 levels deep.
pub decode_data-Ends :
    (s : Std) (bytes : Bytes)
    → IsBytes bytes
    → Ends (λ d. depth d ≤ max_nesting_depth) (decode_data s bytes)
unfolding decode_data decode
decode_data-Ends s bytes hb =
    Ends-bind _ _ (read_tlv (new bytes)) _ (read_tlv-Ends (new bytes) hb)
      (λ (t, r') w. decode_at-Ends s 32 t w.octets)
