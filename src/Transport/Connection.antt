-- ===== src/Transport/Connection.antt =====
-- transport/connection.rs: packets on a stream, and TSDUs cut into data units. The stream is a
-- parameter: tokio's `read_exact` and `write_all` on a TCP or TLS connection.
pub mod Delivery
pub mod Limit
use iec_61850_studio.Base.{
  ℕ, zero, suc, ◌+◌, ◌*◌, List, [], ◌∷◌, ◌++◌, Option, none, some, length, Bool, true, false, ltb,
  if◌then◌else◌,
}
use iec_61850_studio.Base.Result.{Result, ok, err, ◌>>=◌}
use iec_61850_studio.Base.Words.{Bytes}
use iec_61850_studio.Transport.Error.{MmsResult, io, transport, out_of_fuel}
use iec_61850_studio.Transport.Tpkt.{header_len, frame, header_payload_len}
use iec_61850_studio.Transport.Cotp.{data_tpdus, parse_data_tpdu_eot, default_tpdu_size}

abbrev pub max_tsdu_len : ℕ
max_tsdu_len = 16 * 1024 * 1024

-- `none` is an error of the stream, the end of it included. `write_all` stands for the source's `write_all` with the `flush`
-- behind it, and its error for that of either.
pub record Stream (S : Type 0) : Type 0 where
  pub read_exact : ℕ → S → Option (Bytes × S)
  pub write_all : Bytes → S → Option S

-- `?` on a result of the stream
abbrev pub or_io {ℓ} : {A : Type ℓ} → Option A → MmsResult A
or_io none = err io
or_io (some a) = ok a

-- `reassemble_into`: the buffer behind the data unit, and whether it was the last one.
unfoldable pub reassemble_into : Bytes → Bytes → MmsResult (Bytes × Bool)
reassemble_into out tpdu = do
  (payload, eot) ← parse_data_tpdu_eot tpdu
  (if ltb max_tsdu_len (length out + length payload)
      then err transport
      else ok (out ++ payload, eot))

module _ {S : Type 0} (stream : Stream S) where
  unfoldable pub send : S → Bytes → MmsResult S
  send s payload = or_io (stream.write_all (frame payload) s)

  unfoldable pub recv : S → MmsResult (Bytes × S)
  recv s = do
    (header, s₁) ← or_io (stream.read_exact header_len s)
    len ← header_payload_len header
    or_io (stream.read_exact len s₁)

  -- The loop of `recv_data`. It has no bound in the source: a peer that never marks the end and sends
  -- no octets keeps it going, so the number of rounds is fuel.
  unfoldable pub recv_loop : ℕ → Bytes → S → MmsResult (Bytes × S)
  recv_loop zero out s = err out_of_fuel
  recv_loop (suc n) out s = do
    (tpdu, s₁) ← recv s
    (out₁, eot) ← reassemble_into out tpdu
    let later = recv_loop n out₁ s₁
    if eot then ok (out₁, s₁) else later

  unfoldable pub recv_data : ℕ → S → MmsResult (Bytes × S)
  recv_data rounds s = recv_loop rounds [] s

  unfoldable pub send_all : S → List Bytes → MmsResult S
  send_all s [] = ok s
  send_all s (t ∷ ts) = do s₁ ← send s t; send_all s₁ ts

  unfoldable pub send_data : S → Bytes → MmsResult S
  send_data s tsdu = send_all s (data_tpdus tsdu default_tpdu_size)
