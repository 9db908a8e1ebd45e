-- ===== src/Ber/Base128.antt =====
-- Base 128, big-endian, bit 8 for continuation: the loops that `Tag::encode`, `Tag::decode`,
-- `push_base128` and `decode_oid` share (ber/tag.rs, ber/prim.rs). Numbers are `u32`.
pub mod Value
use iec_61850_studio.Base.{
  ℕ, zero, suc, ◌+◌, ◌*◌, ◌/◌, ◌%◌, ◌^◌, bit_and, bit_or, [], ◌∷◌, ◌++◌, Option, none, some, ltb,
  ◌==◌, if◌then◌else◌,
}
use iec_61850_studio.Base.Words.{Bytes}

-- The first loop fills `stack: [u8; 5]`, lowest group first; the fuel is the size of the stack.
-- Five groups hold 35 bits, so the loop over a `u32` ends before the stack does.
unfoldable pub base128_stack : ℕ → ℕ → Bytes
base128_stack zero v = []
base128_stack (suc n) v =
    let more = base128_stack n (v / 128) in
    (bit_and v 0x7f % 256) ∷ (if v / 128 == 0 then [] else more)

-- The second loop, `for i in (0..n).rev()`; the list is the stack from index `i` on.
unfoldable pub base128_octets : ℕ → Bytes → Bytes
base128_octets i [] = []
base128_octets i (g ∷ gs) =
    base128_octets (i + 1) gs ++ ((if i == 0 then g else bit_or g 0x80) ∷ [])

-- `push_base128(out, v)`
unfoldable pub push_base128 : Bytes → ℕ → Bytes
unfolding base128_stack base128_octets
push_base128 out v = out ++ base128_octets 0 (base128_stack 5 v)

-- `u32::checked_shl`: `none` only if the shift is not below the width; bits shifted out are lost.
abbrev pub checked_shl_u32 : ℕ → ℕ → Option ℕ
checked_shl_u32 x n = if ltb n 32 then some (x * 2 ^ n % 2 ^ 32) else none
