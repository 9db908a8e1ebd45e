-- ===== src/Ber/Reader.antt =====
-- ber/reader.rs: a cursor over a sequence of TLVs. A slice is a list, and a slice `data[pos..]`
-- with `pos` beyond the end, which would panic, is empty: `Laws` shows that `pos` stays within.
pub mod Laws
use iec_61850_studio.Base.{
  ℕ, ◌+◌, ◌-◌, ◌^◌, Option, none, some, length, take, drop, Bool, not, ltb, leb, if◌then◌else◌,
  List, [],
}
use iec_61850_studio.Base.Result.{ok, err, ◌>>=◌}
use iec_61850_studio.Base.Words.{Bytes}
use iec_61850_studio.Ber.Error.{Tag, BerResult, unexpected_eof, length_overflow, unexpected_tag}
use iec_61850_studio.Ber.Tag
use iec_61850_studio.Ber.Tag.{tag_eq}
use iec_61850_studio.Ber.Length.{decode_len}

pub record Tlv : Type 0 where
  pub tag : Tag
  pub content : Bytes

pub record BerReader : Type 0 where
  pub bytes : Bytes
  pub pos : ℕ

abbrev pub new : Bytes → BerReader
new data' = record { bytes = data'; pos = 0 }

-- `Tlv::reader`
abbrev pub reader : Tlv → BerReader
reader t = new t.content

unfoldable pub is_empty : BerReader → Bool
is_empty r = leb (length r.bytes) r.pos

unfoldable pub peek_tag : BerReader → BerResult Tag
peek_tag r = do (tag, n) ← Tag.decode (drop r.pos r.bytes); ok tag

-- `a.checked_add(b)` on a `usize`
abbrev pub checked_add : ℕ → ℕ → Option ℕ
checked_add a b = if ltb (a + b) (2 ^ 64) then some (a + b) else none

-- `&data[start..end]`
abbrev pub slice : ℕ → ℕ → Bytes → Bytes
slice start end bytes = take (end - start) (drop start bytes)

-- The bytes from `start` to `end` as the content, and the cursor behind them.
cut : BerReader → Tag → ℕ → ℕ → BerResult (Tlv × BerReader)
cut r tag start len = elim (checked_add start len) [
  | none ↦ err length_overflow
  | some end ↦
      if ltb (length r.bytes) end
      then err unexpected_eof
      else ok (record { tag = tag; content = slice start end r.bytes }, record r { pos = end })
]

unfoldable pub read_tlv : BerReader → BerResult (Tlv × BerReader)
unfolding cut
read_tlv r = do
  let rest = drop r.pos r.bytes
  (tag, tn) ← Tag.decode rest
  (len, ln) ← decode_len (drop tn rest)
  cut r tag (r.pos + tn + ln) len

unfoldable pub expect : BerReader → Tag → BerResult (Bytes × BerReader)
expect r tag = do
  (tlv, r') ← read_tlv r
  if tag_eq tlv.tag tag then ok (tlv.content, r') else err (unexpected_tag tag tlv.tag)

-- `Ok(Some(self.expect(tag)?))`
abbrev pub map_ok : BerResult (Bytes × BerReader) → BerResult (Option Bytes × BerReader)
map_ok m = do (content, r') ← m; ok (some content, r')

unfoldable pub read_if : BerReader → Tag → BerResult (Option Bytes × BerReader)
unfolding is_empty peek_tag
read_if r tag =
    let peeked = (do
      found ← peek_tag r
      if tag_eq found tag then map_ok (expect r tag) else ok (none, r)) in
    if is_empty r then ok (none, r) else peeked
