-- ===== src/Transport/Cotp/Negotiation.antt =====
-- The two data units of the connection phase, and the size that they agree on.
use iec_61850_studio.Base.{
  ℕ, zero, suc, ◌+◌, ◌-◌, ◌^◌, ◌≤◌, ◌<◌, [], ◌∷◌, length, take, drop, ◌≡◌, refl, arith, ap, ◌∙◌,
}
use native.Mathlib.Nat.{pow-le-pow_right}
use iec_61850_studio.Base.Result.{ok}
use iec_61850_studio.Base.Words.{Bytes, from_be, from_be-be_bytes, be_bytes}
use iec_61850_studio.Transport.Cotp.{
  connection_request, parse_connection_request, connection_confirm, parse_connection_confirm,
  size_loop, tpdu_size_from_params, default_tpdu_size,
}

-- A server reads the reference of the client out of the client's request, for every `u16`.
pub parse_connection_request-connection_request :
    (r : ℕ) → r < 2 ^ 16 → parse_connection_request (connection_request r) ≡ ok r
unfolding connection_request parse_connection_request
parse_connection_request-connection_request r h =
    ap ok {x = from_be (be_bytes 2 r)} {y = r} (from_be-be_bytes 2 r ∙ omega arith)

-- A client accepts every confirmation that a server writes, with the size of 1024 octets.
pub parse_connection_confirm-connection_confirm :
    (client ours : ℕ)
    → parse_connection_confirm (connection_confirm client ours) ≡ ok default_tpdu_size
unfolding connection_confirm parse_connection_confirm tpdu_size_from_params size_loop
parse_connection_confirm-connection_confirm client ours = refl

power_bounds : (c : ℕ) → 7 ≤ c → c ≤ 13 → (128 ≤ 2 ^ c) × (2 ^ c ≤ 8192)
power_bounds c lo hi =
    (pow-le-pow_right {n = 2} (omega arith) lo, pow-le-pow_right {n = 2} (omega arith) hi)

size_loop_bounds : (n : ℕ) (bytes : Bytes) → (128 ≤ size_loop n bytes) × (size_loop n bytes ≤ 8192)
unfolding size_loop
size_loop_bounds zero bytes = omega arith
size_loop_bounds (suc n) [] = omega arith
size_loop_bounds (suc n) (b ∷ []) = omega arith
size_loop_bounds (suc n) (ptype ∷ plen ∷ rest) =
    ground (arith, size_loop_bounds n (drop plen rest), power_bounds (from_be (take 1 rest)))

-- Whatever confirmation a client accepts, the size is one of X.224, from 128 to 8192 octets.
pub parse_connection_confirm_bounds :
    (bytes : Bytes) (size : ℕ)
    → parse_connection_confirm bytes ≡ ok size
    → (128 ≤ size) × (size ≤ 8192)
unfolding parse_connection_confirm tpdu_size_from_params
parse_connection_confirm_bounds [] size e = cc
parse_connection_confirm_bounds (li ∷ []) size e = cc
parse_connection_confirm_bounds (li ∷ code ∷ rest) size e =
    let found = take (1 + li - 7) (drop 7 (li ∷ code ∷ rest)) in
    ground (arith, size_loop_bounds 0 [], size_loop_bounds (length found) found)
