-- ===== src/Sv/NineTwoLe.antt =====
-- crates/iec61850-sv/src/nine_two_le.rs: the eight channels of a sample. An `i32` is its bit pattern.
use iec_61850_studio.Base.{
  ℕ, zero, suc, ◌*◌, ◌^◌, ◌<◌, List, [], ◌∷◌, ◌++◌, Option, none, some, length, take, drop, All,
  ◌==◌, not, if◌then◌else◌, ◌≡◌, refl, sym, ap, ◌∙◌, arith, take_front,
}
use mathlib.Core.Path.{ap₂}
use iec_61850_studio.Base.Words.{Bytes, be_bytes, from_be, from_be-be_bytes}

pub record SvChannel : Type 0 where
  pub value : ℕ
  pub quality : ℕ

-- `NineTwoLe { channels: [SvChannel; 8] }`
pub record NineTwoLe : Type 0 where
  pub channels : List SvChannel

-- The loop of `to_bytes`: each channel fills the eight octets behind those of the last one.
abbrev pub channels_octets : List SvChannel → Bytes
channels_octets [] = []
channels_octets (ch ∷ chs) = be_bytes 4 ch.value ++ (be_bytes 4 ch.quality ++ channels_octets chs)

unfoldable pub to_bytes : NineTwoLe → Bytes
to_bytes n = channels_octets n.channels

-- The loop of `from_bytes` on `n` channels.
abbrev pub read_channels : ℕ → Bytes → List SvChannel
read_channels zero b = []
read_channels (suc n) b =
    record { value = from_be (take 4 b); quality = from_be (take 4 (drop 4 b)) }
    ∷ read_channels n (drop 4 (drop 4 b))

-- `Malformed` is the one error.
unfoldable pub from_bytes : Bytes → Option NineTwoLe
from_bytes b = if not (length b == 64) then none else some (record { channels = read_channels 8 b })

-- The values of the Rust type: 32 bits each, eight channels.
abbrev pub IsSvChannel : SvChannel → Type 0
IsSvChannel ch = (ch.value < 2 ^ 32) × (ch.quality < 2 ^ 32)

pub record IsNineTwoLe (n : NineTwoLe) : Type 0 where
  pub eight : length n.channels ≡ 8
  pub words : All IsSvChannel n.channels

word_front : (v : ℕ) (rest : Bytes) → v < 2 ^ 32 → from_be (take 4 (be_bytes 4 v ++ rest)) ≡ v
word_front v rest h =
    ap from_be (take_front (be_bytes 4 v) rest) ∙ from_be-be_bytes 4 v ∙ omega arith

read_channels-octets :
    (chs : List SvChannel)
    → All IsSvChannel chs
    → read_channels (length chs) (channels_octets chs) ≡ chs
read_channels-octets [] h = refl
read_channels-octets (ch ∷ chs) ((hv, hq), h) =
    let others = channels_octets chs in
    ap₂ (λ c cs. c ∷ cs)
      (ap₂ (λ v q. record { value = v; quality = q })
        (word_front ch.value (be_bytes 4 ch.quality ++ others) hv)
        (word_front ch.quality others hq))
      (read_channels-octets chs h)

pub length-channels_octets : (chs : List SvChannel) → length (channels_octets chs) ≡ 8 * length chs
length-channels_octets [] = refl
length-channels_octets (ch ∷ chs) = omega (arith, length-channels_octets chs)

-- The 64 octets that `to_bytes` packs are those that `from_bytes` unpacks, for eight channels of 32-bit words,
-- and they are 64.
from_bytes-to_bytes :
    (n : NineTwoLe)
    → IsNineTwoLe n
    → (from_bytes (to_bytes n) ≡ some n) × (length (to_bytes n) ≡ 64)
unfolding from_bytes to_bytes
from_bytes-to_bytes n h =
    let size : length (channels_octets n.channels) ≡ 64 =
      omega (arith, length-channels_octets n.channels, h.eight) in
    let channels : read_channels 8 (channels_octets n.channels) ≡ n.channels =
      ap (λ (k : ℕ). read_channels k (channels_octets n.channels)) (sym h.eight)
      ∙ read_channels-octets n.channels h.words in
    (rw (size, channels) refl, size)
