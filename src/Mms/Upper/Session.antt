-- ===== src/Mms/Upper/Session.antt =====
-- crates/iec61850-mms/src/upper/session.rs: the session PDUs CONNECT and ACCEPT, and the prefix of the data phase. An
-- index into a buffer is a number, and `buf[i..]` is what is left behind it; a loop runs on fuel, one per octet.
pub mod Parameters
use iec_61850_studio.Base.{
  ℕ, zero, suc, ◌+◌, ◌*◌, ◌%◌, ◌^◌, min, bit_and, List, [], ◌∷◌, ◌++◌, Option, none, some, Bool,
  length, take, drop, ltb, leb, ◌==◌, ◌&&◌, not, if◌then◌else◌,
}
use iec_61850_studio.Base.Result.{ok, err, ◌>>=◌}
use iec_61850_studio.Base.Words.{Bytes, be_bytes}
use iec_61850_studio.Transport.Error.{MmsResult, transport, out_of_fuel}

abbrev pub si_connect : ℕ
si_connect = 0x0D

abbrev pub si_accept : ℕ
si_accept = 0x0E

abbrev pub pi_requirements : ℕ
pi_requirements = 0x14

abbrev pub pi_version : ℕ
pi_version = 0x16

abbrev pub pi_protocol_options : ℕ
pi_protocol_options = 0x13

abbrev pub pgi_connect_accept : ℕ
pgi_connect_accept = 0x05

abbrev pub pi_calling_selector : ℕ
pi_calling_selector = 0x33

abbrev pub pi_called_selector : ℕ
pi_called_selector = 0x34

abbrev pub pgi_user_data : ℕ
pgi_user_data = 0xC1

abbrev pub data_prefix : Bytes
data_prefix = 0x01 ∷ 0x00 ∷ 0x01 ∷ 0x00 ∷ []

-- `push_li`, whose long form keeps the low 16 bits of the length.
unfoldable pub push_li : Bytes → ℕ → Bytes
push_li out len =
    if ltb len 0xFF then out ++ len ∷ [] else (out ++ 0xFF ∷ []) ++ be_bytes 2 (len % 2 ^ 16)

-- What `connect` and `accept_with_version` share: the items, the user data, and both behind their length.
abbrev pub after_li : ℕ → Bytes → Bytes
after_li version user_data =
    push_li
      (pgi_connect_accept ∷ 0x06 ∷ pi_protocol_options ∷ 0x01 ∷ 0x00 ∷ pi_version ∷ 0x01 ∷ version
        ∷ pi_requirements ∷ 0x02 ∷ 0x00 ∷ 0x02 ∷ pgi_user_data ∷ [])
      (length user_data)
    ++ user_data

unfoldable pub connect : Bytes → Bytes
connect presentation_cp =
    push_li (si_connect ∷ []) (length (after_li 0x02 presentation_cp))
    ++ after_li 0x02 presentation_cp

unfoldable pub accept_with_version : Bytes → ℕ → Bytes
accept_with_version presentation_cpa version =
    push_li (si_accept ∷ []) (length (after_li version presentation_cpa))
    ++ after_li version presentation_cpa

unfoldable pub accept : Bytes → Bytes
accept presentation_cpa = accept_with_version presentation_cpa 0x02

pub record ConnectSpdu : Type 0 where
  pub version : ℕ
  pub requirements : Option Bytes
  pub calling_selector : Option Bytes
  pub called_selector : Option Bytes
  pub user_data : Bytes

unfoldable pub negotiated_version : ConnectSpdu → ℕ
negotiated_version s = if not (bit_and s.version 0x02 == 0) then 0x02 else 0x01

-- The two octets of a long length.
abbrev pub long_li : Bytes → Option (ℕ × ℕ)
long_li (hi ∷ lo ∷ _) = some (hi * 256 + lo, 3)
long_li _ = none

-- `read_li` on what is left of the buffer.
unfoldable pub read_li : Bytes → Option (ℕ × ℕ)
read_li [] = none
read_li (n ∷ rest) = if n == 0xFF then long_li rest else some (n, 1)

-- `buf.get(start..start + len)`
abbrev pub get_range : Bytes → ℕ → ℕ → Option Bytes
get_range buf start len =
    if leb (start + len) (length buf) then some (take len (drop start buf)) else none

abbrev pub ok_or : {A : Type 0} → Option A → MmsResult A
ok_or none = err transport
ok_or (some a) = ok a

-- `buf[i]`, which stands before the end where it is read.
abbrev pub first_octet : Bytes → MmsResult ℕ
first_octet [] = err transport
first_octet (b ∷ _) = ok b

abbrev pub octet_at : Bytes → ℕ → MmsResult ℕ
octet_at buf i = first_octet (drop i buf)

-- A parameter at `i`: its code, its value and the index behind it.
unfoldable pub read_parameter : Bytes → ℕ → MmsResult (ℕ × Bytes × ℕ)
unfolding read_li
read_parameter buf i = do
  code ← octet_at buf i
  (len, li) ← ok_or (read_li (drop (i + 1) buf))
  value ← ok_or (get_range buf (i + 1 + li) len)
  ok (code, value, i + 1 + li + len)

-- `sval.first().copied().unwrap_or(0x02)`
abbrev pub first_or_two : Bytes → ℕ
first_or_two [] = 0x02
first_or_two (b ∷ _) = b

-- The loop over the sub-parameters of a Connect/Accept Item.
unfoldable pub sub_parameters : ℕ → Bytes → ℕ → ℕ → MmsResult ℕ
sub_parameters zero value j version = if ltb j (length value) then err out_of_fuel else ok version
sub_parameters (suc n) value j version =
    let rest = (do
      (sub, sval, next) ← read_parameter value j
      sub_parameters n value next (if sub == pi_version then first_or_two sval else version)) in
    if ltb j (length value) then rest else ok version

-- The match on the code of a parameter.
unfoldable pub on_parameter : ℕ → Bytes → ConnectSpdu → MmsResult ConnectSpdu
on_parameter code value out =
    if code == pgi_connect_accept
    then (do
      version ← sub_parameters (length value) value 0 out.version
      ok (record out { version = version }))
    else if code == pi_requirements && length value == 2
    then ok (record out { requirements = some value })
    else if code == pi_calling_selector
    then ok (record out { calling_selector = some value })
    else if code == pi_called_selector
    then ok (record out { called_selector = some value })
    else if code == pgi_user_data
    then ok (record out { user_data = value })
    else ok out

-- The loop over the parameters.
unfoldable pub parameters : ℕ → Bytes → ℕ → ℕ → ConnectSpdu → MmsResult ConnectSpdu
parameters zero buf end i out = if ltb i end then err out_of_fuel else ok out
parameters (suc n) buf end i out =
    let rest = (do
      (code, value, next) ← read_parameter buf i
      out' ← on_parameter code value out
      parameters n buf end next out') in
    if ltb i end then rest else ok out

abbrev pub no_parameters : ConnectSpdu
no_parameters = record {
  version = 0x02;
  requirements = none;
  calling_selector = none;
  called_selector = none;
  user_data = [];
}

abbrev pub with_user_data : ConnectSpdu → MmsResult ConnectSpdu
with_user_data out = if length out.user_data == 0 then err transport else ok out

-- The parameters behind the length indicator of a PDU that is a CONNECT.
abbrev pub parse_parameters : Bytes → MmsResult ConnectSpdu
parse_parameters buf = do
  (total, li) ← ok_or (read_li (drop 1 buf))
  out ← parameters (length buf) buf (min (1 + li + total) (length buf)) (1 + li) no_parameters
  with_user_data out

unfoldable pub parse_connect : Bytes → MmsResult ConnectSpdu
parse_connect [] = err transport
parse_connect (si ∷ rest) = if si == si_connect then parse_parameters (si ∷ rest) else err transport

-- `data`
unfoldable pub data_pdu : Bytes → Bytes
data_pdu presentation_user_data = data_prefix ++ presentation_user_data
