-- ===== src/Ber/Length.antt =====
-- ber/length.rs: lengths in the short and the long definite form. A `usize` has 64 bits.
pub mod RoundTrip
use mathlib.Core.Option.{map as option_map}
use iec_61850_studio.Base.{
  ℕ, zero, suc, ◌+◌, ◌-◌, ◌%◌, bit_and, bit_or, List, [], ◌∷◌, ◌++◌, Option, none, some, length,
  drop, ltb, ◌==◌, if◌then◌else◌,
}
use iec_61850_studio.Base.Result.{ok, err, ◌>>=◌}
use iec_61850_studio.Base.Words.{Bytes, be_bytes, shl8_or}
use iec_61850_studio.Ber.Error.{BerResult, unexpected_eof, indefinite_length, length_overflow}

-- `bytes.iter().position(|&b| b != 0)`
position_nonzero : Bytes → Option ℕ
position_nonzero [] = none
position_nonzero (b ∷ bs) = if b == 0 then option_map suc (position_nonzero bs) else some 0

abbrev unwrap_or : Option ℕ → ℕ → ℕ
unwrap_or none d = d
unwrap_or (some n) d = n

first_nonzero : Bytes → ℕ
unfolding position_nonzero
first_nonzero bytes = unwrap_or (position_nonzero bytes) (length bytes - 1)

unfoldable pub encode_len : Bytes → ℕ → Bytes
unfolding first_nonzero
encode_len out len =
    if ltb len 0x80
    then out ++ ((len % 256) ∷ [])
    else let bytes = be_bytes 8 len in
      let significant = drop (first_nonzero bytes) bytes in
      out ++ (bit_or 0x80 (length significant % 256) ∷ significant)

unfoldable pub len_encoded_size : ℕ → ℕ
unfolding first_nonzero
len_encoded_size len =
    if ltb len 0x80
    then 1
    else let bytes = be_bytes 8 len in 1 + (length bytes - first_nonzero bytes)

-- The loop over the `n` octets behind the first; the list is what the index has not reached.
len_octets : ℕ → Bytes → ℕ → BerResult ℕ
len_octets zero rest len = ok len
len_octets (suc n) [] len = err unexpected_eof
len_octets (suc n) (b ∷ rest) len = len_octets n rest (shl8_or 64 len b)

-- The length, and how many octets it took.
unfoldable pub decode_len : Bytes → BerResult (ℕ × ℕ)
unfolding len_octets
decode_len [] = err unexpected_eof
decode_len (first ∷ rest) =
    if ltb first 0x80
    then ok (first, 1)
    else if first == 0x80
    then err indefinite_length
    else let n = bit_and first 0x7f in
      if ltb 8 n then err length_overflow else do len ← len_octets n rest 0; ok (len, 1 + n)
