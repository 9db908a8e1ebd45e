-- ===== src/Transport/Tpkt.antt =====
-- transport/tpkt.rs: the packet header `03 00 len_hi len_lo`, where `len` counts the header too.
use iec_61850_studio.Base.{
  ℕ, ◌+◌, ◌-◌, ◌%◌, ◌^◌, ◌≤◌, ◌∷◌, [], ◌++◌, length, take, ltb, ◌==◌, not, if◌then◌else◌, ◌≡◌,
  arith,
}
use iec_61850_studio.Base.Result.{ok, err}
use iec_61850_studio.Base.Words.{Bytes, be_bytes, from_be}
use iec_61850_studio.Transport.Error.{MmsResult, transport}

abbrev pub header_len : ℕ
header_len = 4

abbrev pub version : ℕ
version = 3

abbrev pub max_payload_len : ℕ
max_payload_len = 2 ^ 16 - 1 - header_len

-- `frame`: the length is cast to a `u16`.
unfoldable pub frame : Bytes → Bytes
frame payload =
    let total = header_len + length payload in
    (version ∷ 0 ∷ be_bytes 2 (total % 2 ^ 16)) ++ payload

-- `payload_len`, with the four octets of the header.
unfoldable pub payload_len : ℕ → ℕ → ℕ → ℕ → MmsResult ℕ
payload_len h0 h1 h2 h3 =
    let total = from_be (h2 ∷ h3 ∷ []) in
    if not (h0 == version)
    then err transport
    else if ltb total header_len
    then err transport
    else if ltb max_payload_len (total - header_len)
    then err transport
    else ok (total - header_len)

-- `header: [u8; 4]`, which `read_exact` fills
abbrev pub header_payload_len : Bytes → MmsResult ℕ
header_payload_len (h0 ∷ h1 ∷ h2 ∷ h3 ∷ []) = payload_len h0 h1 h2 h3
header_payload_len _ = err transport

-- The header that `frame` writes tells how long the payload is, up to `max_payload_len` octets.
pub payload_len-frame :
    (payload : Bytes)
    → length payload ≤ max_payload_len
    → header_payload_len (take header_len (frame payload)) ≡ ok (length payload)
unfolding payload_len frame
payload_len-frame payload h = ground arith
