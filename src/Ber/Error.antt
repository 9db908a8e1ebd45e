-- ===== src/Ber/Error.antt =====
-- Identifiers (ber/tag.rs) and errors (error.rs) of the BER codec. The texts that the errors carry
-- are dropped: `unexpected_tag` keeps the two identifiers that its texts print.
use iec_61850_studio.Base.{ℕ, Bool}
use iec_61850_studio.Base.Result.{Result}

pub data TagClass : Type 0 where
  universal application context private : TagClass

pub record Tag : Type 0 where
  pub class : TagClass
  pub constructed : Bool
  pub number : ℕ

-- `out_of_fuel` is no value of the program: a loop of the model ran out of its bound.
pub data BerError : Type 0 where
  unexpected_eof indefinite_length length_overflow : BerError
  unexpected_tag : Tag → Tag → BerError
  bad_integer bad_bool bad_oid bad_string bad_bit_string structure depth_exceeded : BerError
  out_of_fuel : BerError

abbrev pub BerResult {ℓ} : Type ℓ → Type ℓ
BerResult A = Result BerError A
