-- ===== src/Ber/Reader/Laws.antt =====
-- `read_tlv` on what a writer wrote, and on any input.
use iec_61850_studio.Base.{
  ℕ, ◌+◌, ◌-◌, ◌^◌, ◌≤◌, ◌<◌, [], ◌++◌, length, take, drop, ◌≡◌, refl, sym, ap, ◌∙◌, arith,
  length-append, append_assoc, take_front, drop_front, drop-drop, length-take, length-drop,
  All-drop, All-take,
}
use mathlib.Core.Path.{ap₂}
use mathlib.Core.Logic.{◌≢◌}
use iec_61850_studio.Base.Result.{ok, err, >>=-eq-ok}
use iec_61850_studio.Base.Words.{Bytes, IsByte, IsBytes}
use iec_61850_studio.Ber.Error.{Tag, out_of_fuel}
use iec_61850_studio.Ber.Ends.{Ends, Ends-ne, Ends-of, Ends-bind}
use iec_61850_studio.Ber.Tag
use iec_61850_studio.Ber.Tag.RoundTrip
use iec_61850_studio.Ber.Tag.Bounds
use iec_61850_studio.Ber.Length.{encode_len, len_encoded_size, decode_len}
use iec_61850_studio.Ber.Length.RoundTrip.{
  decode_len-encode_len, length-encode_len, decode_len_bounds, decode_len-ne-out_of_fuel,
}
use iec_61850_studio.Ber.Writer.Laws.{tlv_octets, length-tlv_octets}
use iec_61850_studio.Ber.Reader.{Tlv, BerReader, slice, cut, read_tlv, peek_tag}

-- A cursor behind `front`, in front of `rest`.
abbrev pub at : Bytes → Bytes → BerReader
at front rest = record { bytes = front ++ rest; pos = length front }

cut_lem :
    (r : BerReader) (tag : Tag) (start len : ℕ)
    → start + len ≤ length r.bytes
    → length r.bytes < 2 ^ 64
    → cut r tag start len
      ≡ ok (
        record { tag = tag; content = take len (drop start r.bytes) },
        record r { pos = start + len },
      )
unfolding cut
cut_lem r tag start len h small =
    let e : start + len - start ≡ len = omega arith in ground (arith, e)

read_tlv_step :
    (r : BerReader) (tag : Tag) (tn len ln : ℕ)
    → Tag.decode (drop r.pos r.bytes) ≡ ok (tag, tn)
    → decode_len (drop tn (drop r.pos r.bytes)) ≡ ok (len, ln)
    → read_tlv r ≡ cut r tag (r.pos + tn + ln) len
unfolding read_tlv
read_tlv_step r tag tn len ln p q = rw (p, q)

module _ (front rest : Bytes) (tag : Tag) (content : Bytes) where
  abbrev whole : Bytes
  whole = front ++ (tlv_octets tag content ++ rest)

  -- The input from the cursor on, cut into its four parts.
  at_identifier :
      drop (length front) whole
      ≡ Tag.encode [] tag ++ (encode_len [] (length content) ++ (content ++ rest))
  at_identifier =
      drop_front front (tlv_octets tag content ++ rest)
      ∙ append_assoc (Tag.encode [] tag) _ rest
      ∙ ap (λ (t : Bytes). Tag.encode [] tag ++ t) (append_assoc _ content rest)

  at_length :
      drop (length (Tag.encode [] tag)) (drop (length front) whole)
      ≡ encode_len [] (length content) ++ (content ++ rest)
  at_length =
      ap (drop (length (Tag.encode [] tag))) at_identifier ∙ drop_front (Tag.encode [] tag) _

  at_content :
      length content < 2 ^ 64
      → drop (length front + length (Tag.encode [] tag) + len_encoded_size (length content)) whole
        ≡ content ++ rest
  at_content h =
      sym (
        drop-drop (length front + length (Tag.encode [] tag)) (len_encoded_size (length content))
          whole)
      ∙ ap (drop (len_encoded_size (length content)))
          (sym (drop-drop (length front) (length (Tag.encode [] tag)) whole) ∙ at_length)
      ∙ ap (λ (n : ℕ). drop n (encode_len [] (length content) ++ (content ++ rest)))
          {x = len_encoded_size (length content)} {y = length (encode_len [] (length content))}
          (omega (arith, length-encode_len [] (length content) h))
      ∙ drop_front (encode_len [] (length content)) (content ++ rest)

  pub peek_tag-tlv_octets :
      tag.number < 2 ^ 32 → peek_tag (at front (tlv_octets tag content ++ rest)) ≡ ok tag
  unfolding peek_tag
  peek_tag-tlv_octets ht = rw (ap Tag.decode at_identifier ∙ RoundTrip.decode-encode tag _ ht) refl

  -- Behind any input already read, `read_tlv` reads the TLV that a writer wrote and leaves the
  -- cursor behind it, where the number of the tag fits 32 bits and the whole input 64.
  pub read_tlv-tlv_octets :
      tag.number < 2 ^ 32
      → length whole < 2 ^ 64
      → read_tlv (at front (tlv_octets tag content ++ rest))
        ≡ ok (
          record { tag = tag; content = content },
          record { bytes = whole; pos = length front + length (tlv_octets tag content) },
        )
  read_tlv-tlv_octets ht small =
      read_tlv_step (at front (tlv_octets tag content ++ rest)) tag (length (Tag.encode [] tag))
        (length content) (len_encoded_size (length content))
        (ap Tag.decode at_identifier ∙ RoundTrip.decode-encode tag _ ht)
        (ap decode_len at_length ∙ decode_len-encode_len (length content) _ (omega (arith, sizes)))
      ∙ cut_lem (at front (tlv_octets tag content ++ rest)) tag _ (length content)
          (omega (arith, sizes)) small
      ∙ ap₂
          (λ (c : Bytes) (n : ℕ).
            ok (record { tag = tag; content = c }, record { bytes = whole; pos = n }))
          (ap (take (length content)) (at_content (omega (arith, sizes))) ∙ take_front content rest)
          (omega (arith, sizes))
    where
      lengths :
          (length whole ≡ length front + (length (tlv_octets tag content) + length rest))
          × (length (tlv_octets tag content)
              ≡ length (Tag.encode [] tag)
                + (length (encode_len [] (length content)) + length content))
      lengths = (
        length-append front _
            ∙ ap (λ (n : ℕ). length front + n) (length-append (tlv_octets tag content) rest),
        length-append (Tag.encode [] tag) _
            ∙ ap (λ (n : ℕ). length (Tag.encode [] tag) + n)
                (length-append (encode_len [] (length content)) content),
      )

      sizes :
          (length content < 2 ^ 64)
          × (length whole
              ≡ length front
                + (length (Tag.encode [] tag) + len_encoded_size (length content) + length content)
                + length rest)
          × (length (tlv_octets tag content)
              ≡ length (Tag.encode [] tag) + len_encoded_size (length content) + length content)
      sizes =
          let fits : length content < 2 ^ 64 = omega (arith, lengths) in
          (
            fits,
            omega (arith, lengths, length-tlv_octets tag content fits),
            (length-tlv_octets tag content fits).0,
          )

cut-eq-ok :
    (r : BerReader) (tag : Tag) (start len : ℕ) (t : Tlv) (r' : BerReader)
    → cut r tag start len ≡ ok (t, r')
    → (t ≡ record { tag = tag; content = slice start (start + len) r.bytes })
      × (r' ≡ record r { pos = start + len })
      × (start + len ≤ length r.bytes)
unfolding cut
cut-eq-ok r tag start len t r' e = ground arith

-- What a cursor position and a TLV read there owe to the input: the octets at the cursor are its tag, its length and, in the
-- place that these name, its content, behind which the cursor stands.
pub record Within (r : BerReader) (t : Tlv) (r' : BerReader) : Type 0 where
  pub tag_octets : ℕ
  pub length_octets : ℕ
  pub tag_read : Tag.decode (drop r.pos r.bytes) ≡ ok (t.tag, tag_octets)
  pub length_read :
      decode_len (drop tag_octets (drop r.pos r.bytes)) ≡ ok (length t.content, length_octets)
  pub content_read :
      t.content ≡ take (length t.content) (drop (r.pos + tag_octets + length_octets) r.bytes)
  pub behind : r'.pos ≡ r.pos + tag_octets + length_octets + length t.content
  pub same_bytes : r'.bytes ≡ r.bytes
  pub moves : length t.content + r.pos + 2 ≤ r'.pos
  pub not_beyond : r'.pos ≤ length r.bytes
  pub octets : IsBytes t.content
  pub small_number : t.tag.number < 2 ^ 32

cut-Within :
    (r : BerReader) (tag : Tag) (tn len ln : ℕ) (t : Tlv) (r' : BerReader)
    → cut r tag (r.pos + tn + ln) len ≡ ok (t, r')
    → Tag.decode (drop r.pos r.bytes) ≡ ok (tag, tn)
    → decode_len (drop tn (drop r.pos r.bytes)) ≡ ok (len, ln)
    → 1 ≤ tn
    → 1 ≤ ln
    → tag.number < 2 ^ 32
    → IsBytes r.bytes
    → Within r t r'
cut-Within r tag tn len ln t r' e tag_read length_read ht hl hn hb =
    let start : ℕ = r.pos + tn + ln in
    let (et, er, size) = cut-eq-ok r tag start len t r' e in
    let all : length (slice start (start + len) r.bytes) ≡ len = omega (
      arith,
      size,
      length-take (start + len - start) (drop start r.bytes),
      length-drop start r.bytes,
    ) in
    let same : start + len - start ≡ length (slice start (start + len) r.bytes) =
      omega (arith, all) in
    rw (et, er)
      (record {
        tag_octets = tn;
        length_octets = ln;
        tag_read = tag_read;
        length_read = length_read ∙ ap (λ (n : ℕ). ok (n, ln)) (sym all);
        content_read = ap (λ (n : ℕ). take n (drop start r.bytes)) same;
        behind = omega (arith, all);
        same_bytes = refl;
        moves = omega (arith, all);
        not_beyond = size;
        octets =
            All-take IsByte (start + len - start) (drop start r.bytes)
              (All-drop IsByte start r.bytes hb);
        small_number = hn;
      })

-- Whatever `read_tlv` reads from an input of bytes lies within the input, which stays as it was: the octets at the cursor are a
-- tag of a number below 2 ^ 32 and a length, the content is the octets behind them, as many as the length says, and
-- the cursor moves on behind the content, at least two octets further and not beyond the end.
pub read_tlv-Within :
    (r : BerReader) (t : Tlv) (r' : BerReader)
    → read_tlv r ≡ ok (t, r')
    → IsBytes r.bytes
    → Within r t r'
unfolding read_tlv
read_tlv-Within r t r' e hb =
    let ((tag, tn), p, e₁) = >>=-eq-ok (Tag.decode (drop r.pos r.bytes)) _ e in
    let ((len, ln), q, e₂) = >>=-eq-ok (decode_len (drop tn (drop r.pos r.bytes))) _ e₁ in
    let rest_octets = All-drop IsByte r.pos r.bytes hb in
    let (small, some_tag, _) = Bounds.decode_bounds (drop r.pos r.bytes) tag tn p rest_octets in
    let (_, some_len, _, _) = decode_len_bounds _ len ln (All-drop IsByte tn _ rest_octets) q in
    cut-Within r tag tn len ln t r' e₂ p q some_tag some_len small hb

cut-ne-out_of_fuel :
    (r : BerReader) (tag : Tag) (start len : ℕ) → cut r tag start len ≢ err out_of_fuel
unfolding cut
cut-ne-out_of_fuel r tag start len = ground arith

pub read_tlv-ne-out_of_fuel : (r : BerReader) → read_tlv r ≢ err out_of_fuel
unfolding read_tlv
read_tlv-ne-out_of_fuel r =
    Ends-ne (λ _. Unit {0}) (read_tlv r)
      (Ends-bind (λ _. Unit {0}) _ (Tag.decode (drop r.pos r.bytes)) _
        (Ends-of _ _ (λ e. cc (Bounds.decode-eq-err _ out_of_fuel e)) (λ _ _. tt))
        (λ (tag, tn) _.
          Ends-bind (λ _. Unit {0}) _ (decode_len (drop tn (drop r.pos r.bytes))) _
            (Ends-of _ _ (decode_len-ne-out_of_fuel _) (λ _ _. tt))
            (λ (len, ln) _. Ends-of _ _ (cut-ne-out_of_fuel r tag _ len) (λ _ _. tt))))

-- What holds of a TLV that was read, as a postcondition.
pub read_tlv-Ends : (r : BerReader) → IsBytes r.bytes → Ends (λ p. Within r p.0 p.1) (read_tlv r)
read_tlv-Ends r hb =
    Ends-of _ (read_tlv r) (read_tlv-ne-out_of_fuel r) (λ p e. read_tlv-Within r p.0 p.1 e hb)
