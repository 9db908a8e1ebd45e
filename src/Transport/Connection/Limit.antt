-- ===== src/Transport/Connection/Limit.antt =====
-- The bound on what `recv_data` collects.
use iec_61850_studio.Base.{ℕ, zero, suc, ◌≤◌, ◌≡◌, length, length-append, [], arith, Bool}
use iec_61850_studio.Base.Result.{ok, >>=-eq-ok}
use iec_61850_studio.Base.Words.{Bytes}
use iec_61850_studio.Transport.Cotp.{parse_data_tpdu_eot}
use iec_61850_studio.Transport.Connection.{
  Stream, max_tsdu_len, reassemble_into, recv, recv_loop, recv_data,
}

reassemble_into_bounds :
    (out tpdu out' : Bytes) (eot : Bool)
    → reassemble_into out tpdu ≡ ok (out', eot)
    → length out' ≤ max_tsdu_len
unfolding reassemble_into
reassemble_into_bounds out tpdu out' eot e =
    let ((payload, last), p, e₁) = >>=-eq-ok (parse_data_tpdu_eot tpdu) _ e in
    ground (arith, length-append out payload)

module _ {S : Type 0} (stream : Stream S) where
  recv_loop_bounds :
      (n : ℕ) (out : Bytes) (s : S) (tsdu : Bytes) (s' : S)
      → recv_loop stream n out s ≡ ok (tsdu, s')
      → length tsdu ≤ max_tsdu_len
  unfolding recv_loop
  recv_loop_bounds zero out s tsdu s' e = cc
  recv_loop_bounds (suc n) out s tsdu s' e =
      let ((tpdu, s₁), p, e₁) = >>=-eq-ok (recv stream s) _ e in
      let ((out₁, eot), q, e₂) = >>=-eq-ok (reassemble_into out tpdu) _ e₁ in
      ground (arith, reassemble_into_bounds out tpdu out₁ eot q, recv_loop_bounds n out₁ s₁ tsdu s')

  -- Whatever the peer sends, a TSDU that `recv_data` returns has at most 16 MiB.
  pub recv_data_bounds :
      (rounds : ℕ) (s : S) (tsdu : Bytes) (s' : S)
      → recv_data stream rounds s ≡ ok (tsdu, s')
      → length tsdu ≤ max_tsdu_len
  unfolding recv_data
  recv_data_bounds rounds s tsdu s' e = recv_loop_bounds rounds [] s tsdu s' e
