-- ===== src/Model/Quality.antt =====
-- crates/iec61850-model/src/quality.rs: quality and time stamps taken apart. `epoch_seconds`, a float, is left aside.
use iec_61850_studio.Base.{
  ℕ, ◌*◌, ◌/◌, ◌%◌, ◌^◌, bit_and, List, [], ◌∷◌, ◌++◌, Option, none, some, Bool, true, false, not,
  ◌&&◌, ◌==◌, if◌then◌else◌, get_elem?, ◌≡◌, refl, arith, take, drop,
}
use iec_61850_studio.Base.Words.{Bytes, from_be}
use iec_61850_studio.Ber.Data.{UtcTime}

pub data Validity : Type 0 where
  good invalid reserved questionable : Validity

unfoldable pub validity_from_bits : Bool → Bool → Validity
validity_from_bits false false = good
validity_from_bits true false = invalid
validity_from_bits false true = reserved
validity_from_bits true true = questionable

pub data Source : Type 0 where
  process substituted : Source

pub record Quality : Type 0 where
  pub validity : Validity
  pub overflow : Bool
  pub out_of_range : Bool
  pub bad_reference : Bool
  pub oscillatory : Bool
  pub failure : Bool
  pub old_data : Bool
  pub inconsistent : Bool
  pub inaccurate : Bool
  pub source : Source
  pub test : Bool
  pub operator_blocked : Bool

-- `bits.get(i).copied().unwrap_or(false)`
abbrev pub or_false : Option Bool → Bool
or_false none = false
or_false (some b) = b

abbrev pub bit_at : List Bool → ℕ → Bool
bit_at bits i = or_false (get_elem? bits i)

unfoldable pub from_bits : List Bool → Quality
from_bits bits =
    let b = bit_at bits in
    record {
      validity = validity_from_bits (b 0) (b 1);
      overflow = b 2;
      out_of_range = b 3;
      bad_reference = b 4;
      oscillatory = b 5;
      failure = b 6;
      old_data = b 7;
      inconsistent = b 8;
      inaccurate = b 9;
      source = if b 10 then substituted else process;
      test = b 11;
      operator_blocked = b 12;
    }

-- The bits of an octet, the highest first: `(byte >> (7 - i)) & 1 == 1`.
abbrev pub octet_bits : ℕ → List Bool
octet_bits byte =
    (byte / 128 % 2 == 1)
    ∷ (byte / 64 % 2 == 1)
    ∷ (byte / 32 % 2 == 1)
    ∷ (byte / 16 % 2 == 1)
    ∷ (byte / 8 % 2 == 1)
    ∷ (byte / 4 % 2 == 1)
    ∷ (byte / 2 % 2 == 1)
    ∷ (byte % 2 == 1)
    ∷ []

-- `Quality::from_be_bytes` of two octets
unfoldable pub quality_from_be_bytes : ℕ → ℕ → Quality
quality_from_be_bytes first second = from_bits (octet_bits first ++ octet_bits second)

abbrev pub is_valid : Validity → Bool
is_valid good = true
is_valid _ = false

unfoldable pub is_good : Quality → Bool
is_good q =
    is_valid q.validity
    && not q.overflow
    && not q.out_of_range
    && not q.bad_reference
    && not q.oscillatory
    && not q.failure
    && not q.old_data
    && not q.inconsistent
    && not q.inaccurate

pub record TimeQuality : Type 0 where
  pub leap_seconds_known : Bool
  pub clock_failure : Bool
  pub clock_not_synchronized : Bool
  pub fraction_bits : ℕ

unfoldable pub from_byte : ℕ → TimeQuality
from_byte b = record {
  leap_seconds_known = not (bit_and b 0x80 == 0);
  clock_failure = not (bit_and b 0x40 == 0);
  clock_not_synchronized = not (bit_and b 0x20 == 0);
  fraction_bits = bit_and b 0x1f;
}

pub record Timestamp : Type 0 where
  pub seconds : ℕ
  pub fraction : ℕ
  pub quality : TimeQuality

-- Of the eight octets of a `UTC-Time`; an octet that is missing is 0.
abbrev pub octet_at : Bytes → ℕ → ℕ
octet_at b i = elim (get_elem? b i) [ none ↦ 0 | some v ↦ v ]

unfoldable pub timestamp_from_bytes : UtcTime → Timestamp
timestamp_from_bytes t = record {
  seconds = from_be (take 4 t.raw);
  fraction = from_be (take 3 (drop 4 t.raw));
  quality = from_byte (octet_at t.raw 7);
}

unfoldable pub nanos : Timestamp → ℕ
nanos t = t.fraction * 1000000000 / 2 ^ 24 % 2 ^ 32

-- The octets in which a quality flags nothing: the two bits of the validity and the eight of the detections are clear.
abbrev pub none_set : List Bool → Bool
none_set [] = true
none_set (b ∷ bs) = not b && none_set bs

is_valid-validity : (a b : Bool) → is_valid (validity_from_bits a b) ≡ not a && not b
unfolding validity_from_bits
is_valid-validity false false = refl
is_valid-validity true false = refl
is_valid-validity false true = refl
is_valid-validity true true = refl

-- A quality made of bits is good exactly where the first ten of them, as far as they are there, are clear; the source,
-- the test and the blocking by an operator do not matter.
pub is_good-from_bits : (bits : List Bool) → is_good (from_bits bits) ≡ none_set (take 10 bits)
unfolding is_good from_bits
is_good-from_bits [] = ground (arith, is_valid-validity false false)
is_good-from_bits (a ∷ []) = ground (arith, is_valid-validity a false)
is_good-from_bits (a ∷ b ∷ []) = ground (arith, is_valid-validity a b)
is_good-from_bits (a ∷ b ∷ c ∷ []) = ground (arith, is_valid-validity a b)
is_good-from_bits (a ∷ b ∷ c ∷ d ∷ []) = ground (arith, is_valid-validity a b)
is_good-from_bits (a ∷ b ∷ c ∷ d ∷ e ∷ []) = ground (arith, is_valid-validity a b)
is_good-from_bits (a ∷ b ∷ c ∷ d ∷ e ∷ f ∷ []) = ground (arith, is_valid-validity a b)
is_good-from_bits (a ∷ b ∷ c ∷ d ∷ e ∷ f ∷ g ∷ []) = ground (arith, is_valid-validity a b)
is_good-from_bits (a ∷ b ∷ c ∷ d ∷ e ∷ f ∷ g ∷ h ∷ []) = ground (arith, is_valid-validity a b)
is_good-from_bits (a ∷ b ∷ c ∷ d ∷ e ∷ f ∷ g ∷ h ∷ i ∷ []) = ground (arith, is_valid-validity a b)
is_good-from_bits (a ∷ b ∷ c ∷ d ∷ e ∷ f ∷ g ∷ h ∷ i ∷ j ∷ rest) =
    ground (arith, is_valid-validity a b)
