-- ===== src/Transport/Cotp.antt =====
-- transport/cotp.rs: class 0 of COTP. A data unit of the connection phase or of the data phase is a
-- byte string, without the packet header around it.
pub mod Fragments
pub mod Negotiation
use iec_61850_studio.Base.{
  ℕ, zero, suc, ◌+◌, ◌-◌, ◌%◌, ◌^◌, max, List, [], ◌∷◌, ◌++◌, Option, none, some, length, take,
  drop, Bool, true, false, ltb, leb, ◌==◌, not, ◌&&◌, if◌then◌else◌, bit_and,
}
use iec_61850_studio.Base.Result.{ok, err}
use iec_61850_studio.Base.Words.{Bytes, be_bytes, from_be}
use iec_61850_studio.Transport.Error.{MmsResult, transport, associate_rejected}

abbrev pub default_tpdu_size : ℕ
default_tpdu_size = 1024

-- The variable part: the size of a TPDU, and the two selectors.
abbrev params : Bytes
params = 0xC0 ∷ 1 ∷ 0x0A ∷ 0xC1 ∷ 2 ∷ 0 ∷ 1 ∷ 0xC2 ∷ 2 ∷ 0 ∷ 1 ∷ []

unfoldable pub connection_request : ℕ → Bytes
connection_request src_ref = (6 + length params) ∷ 0xE0 ∷ 0 ∷ 0 ∷ (be_bytes 2 src_ref ++ 0 ∷ params)

-- `data.get(start..end)`
abbrev pub get_range : ℕ → ℕ → Bytes → Option Bytes
get_range start end bytes =
    if leb start end && leb end (length bytes)
    then some (take (end - start) (drop start bytes))
    else none

unfoldable pub parse_connection_request : Bytes → MmsResult ℕ
parse_connection_request [] = err transport
parse_connection_request (li ∷ []) = err transport
parse_connection_request (li ∷ code ∷ rest) =
    let bytes = li ∷ code ∷ rest in
    if not (bit_and code 0xF0 == 0xE0)
    then err transport
    else if ltb (length bytes) (1 + li)
    then err transport
    else elim (get_range 4 6 bytes) [ none ↦ err transport | some src ↦ ok (from_be src) ]

unfoldable pub connection_confirm : ℕ → ℕ → Bytes
connection_confirm client_src_ref our_src_ref =
    (6 + length params)
    ∷ 0xD0
    ∷ (be_bytes 2 client_src_ref ++ (be_bytes 2 our_src_ref ++ 0 ∷ params))

-- The loop of `tpdu_size_from_params`. Each round drops two octets at least, so that the length of
-- the parameters is fuel enough: without fuel there are none left.
unfoldable pub size_loop : ℕ → Bytes → ℕ
size_loop (suc n) (ptype ∷ plen ∷ rest) =
    let later = size_loop n (drop plen rest) in
    if ltb (length rest) plen
    then default_tpdu_size
    else if ptype == 0xC0
        && (plen == 1 && leb 7 (from_be (take 1 rest)) && leb (from_be (take 1 rest)) 13)
    then 2 ^ from_be (take 1 rest)
    else later
size_loop _ _ = default_tpdu_size

unfoldable pub tpdu_size_from_params : Bytes → ℕ
tpdu_size_from_params bytes = size_loop (length bytes) bytes

unfoldable pub parse_connection_confirm : Bytes → MmsResult ℕ
parse_connection_confirm [] = err transport
parse_connection_confirm (li ∷ []) = err transport
parse_connection_confirm (li ∷ code ∷ rest) =
    let bytes = li ∷ code ∷ rest in
    if bit_and code 0xF0 == 0x80
    then err associate_rejected
    else if not (bit_and code 0xF0 == 0xD0)
    then err transport
    else if ltb (length bytes) (1 + li)
    then err transport
    else elim (get_range 7 (1 + li) bytes) [
      | none ↦ ok (tpdu_size_from_params [])
      | some found ↦ ok (tpdu_size_from_params found)
    ]

unfoldable pub data_tpdu : Bytes → Bytes
data_tpdu payload = 2 ∷ 0xF0 ∷ 0x80 ∷ payload

-- `payload.chunks(size)`, with the length of the payload as fuel.
unfoldable pub chunks : ℕ → ℕ → Bytes → List Bytes
chunks zero size payload = []
chunks (suc n) size [] = []
chunks (suc n) size (b ∷ payload) =
    take size (b ∷ payload) ∷ chunks n size (drop size (b ∷ payload))

-- The loop over the pieces, which marks the last one.
unfoldable pub mark_last : List Bytes → List Bytes
mark_last [] = []
mark_last (c ∷ []) = (2 ∷ 0xF0 ∷ 0x80 ∷ c) ∷ []
mark_last (c ∷ d ∷ cs) = (2 ∷ 0xF0 ∷ 0x00 ∷ c) ∷ mark_last (d ∷ cs)

unfoldable pub data_tpdus : Bytes → ℕ → List Bytes
data_tpdus payload max_tpdu =
    let chunk = max (max_tpdu - 3) 1 in
    if leb (length payload) chunk
    then data_tpdu payload ∷ []
    else mark_last (chunks (length payload) chunk payload)

-- The octet behind the code, or the end of the TSDU where there is none.
abbrev pub eot_bit : Bytes → Bool
eot_bit [] = true
eot_bit (flags ∷ _) = not (bit_and flags 0x80 == 0)

unfoldable pub parse_data_tpdu_eot : Bytes → MmsResult (Bytes × Bool)
parse_data_tpdu_eot [] = err transport
parse_data_tpdu_eot (li ∷ []) = err transport
parse_data_tpdu_eot (li ∷ code ∷ rest) =
    let bytes = li ∷ code ∷ rest in
    if not (code == 0xF0)
    then err transport
    else if ltb (length bytes) (1 + li)
    then err transport
    else ok (drop (1 + li) bytes, eot_bit rest)
