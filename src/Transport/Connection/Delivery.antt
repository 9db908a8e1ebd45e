-- ===== src/Transport/Connection/Delivery.antt =====
-- What `send_data` writes, `recv_data` reads, over a stream that keeps the octets in order.
use iec_61850_studio.Base.{
  ℕ, zero, suc, ◌+◌, ◌-◌, ◌≤◌, ◌<◌, max, List, [], ◌∷◌, ◌++◌, Option, none, some, length, take, All,
  true, false, ◌≡◌, refl, sym, ap, ◌∙◌, subst, arith, append-nil, append_assoc, length-append,
}
use iec_61850_studio.Base.Result.{ok, >>=-eq-ok}
use iec_61850_studio.Base.Words.{Bytes}
use iec_61850_studio.Transport.Error.{MmsResult}
use iec_61850_studio.Transport.Tpkt.{frame, payload_len-frame, max_payload_len}
use iec_61850_studio.Transport.Cotp.{mark_last, data_tpdus, parse_data_tpdu_eot, default_tpdu_size}
use iec_61850_studio.Transport.Cotp.Fragments.{concat, pieces, pieces_lem, data_tpdus-mark_last}
use iec_61850_studio.Transport.Connection.{
  Stream, or_io, max_tsdu_len, reassemble_into, recv, recv_loop, recv_data, send, send_all,
  send_data,
}

-- The octets of a list of data units, each in its packet.
abbrev pub packets : List Bytes → Bytes
packets [] = []
packets (t ∷ ts) = frame t ++ packets ts

-- A stream that keeps the octets in order: `Carries s bytes` says that `bytes` can still be read from
-- `s`, and `Wrote s bytes` that `bytes` were written to it.
pub record IsOrdered {S : Type 0} (stream : Stream S) : Type 1 where
  pub Carries : S → Bytes → Type 0
  pub Wrote : S → Bytes → Type 0
  pub reads :
      (s : S) (xs ys : Bytes)
      → Carries s (xs ++ ys)
      → (s' : S) × (stream.read_exact (length xs) s ≡ some (xs, s')) × Carries s' ys
  pub writes :
      (s : S) (xs ys : Bytes) (s' : S)
      → Wrote s xs
      → stream.write_all ys s ≡ some s'
      → Wrote s' (xs ++ ys)

module _ {S : Type 0} (stream : Stream S) (ordered : IsOrdered stream) where
  -- `recv` reads the payload of one packet, of up to 65531 octets, and leaves what follows.
  pub recv-frame :
      (s : S) (payload rest : Bytes)
      → length payload ≤ max_payload_len
      → ordered.Carries s (frame payload ++ rest)
      → (s' : S) × (recv stream s ≡ ok (payload, s')) × ordered.Carries s' rest
  unfolding recv frame
  recv-frame s payload rest h c =
      let header : Bytes = take 4 (frame payload) in
      let (s₁, e₁, c₁) = ordered.reads s header (payload ++ rest) c in
      let (s₂, e₂, c₂) = ordered.reads s₁ payload rest c₁ in
      (s₂, rw (e₁, payload_len-frame payload h, e₂) refl, c₂)

-- One data unit, put to the buffer.
reassemble_mid :
    (out c : Bytes)
    → length out + length c ≤ max_tsdu_len
    → reassemble_into out (2 ∷ 0xF0 ∷ 0x00 ∷ c) ≡ ok (out ++ c, false)
unfolding reassemble_into parse_data_tpdu_eot
reassemble_mid out c h = ground arith

reassemble_last :
    (out c : Bytes)
    → length out + length c ≤ max_tsdu_len
    → reassemble_into out (2 ∷ 0xF0 ∷ 0x80 ∷ c) ≡ ok (out ++ c, true)
unfolding reassemble_into parse_data_tpdu_eot
reassemble_last out c h = ground arith

length-mark_last : (cs : List Bytes) → length (mark_last cs) ≡ length cs
unfolding mark_last
length-mark_last [] = refl
length-mark_last (c ∷ []) = refl
length-mark_last (c ∷ d ∷ cs) = ap suc (length-mark_last (d ∷ cs))

All-weaken :
    (cs : List Bytes)
    → All (λ c. length c ≤ max (default_tpdu_size - 3) 1) cs
    → All (λ c. length c ≤ max_payload_len - 3) cs
All-weaken [] h = tt
All-weaken (c ∷ cs) h = (omega (arith, h.0), All-weaken cs h.1)

ok_injective : {A : Type 0} {a b : A} → ◌≡◌ {A = MmsResult A} (ok a) (ok b) → a ≡ b
ok_injective e = cc

or_io-eq-ok : {A : Type 0} (o : Option A) (a : A) → or_io o ≡ ok a → o ≡ some a
or_io-eq-ok none a e = cc
or_io-eq-ok (some x) a e = cc

module _ {S : Type 0} (stream : Stream S) (ordered : IsOrdered stream) where
  -- The loop over the packets of the pieces `c ∷ cs`.
  recv_loop-packets :
      (n : ℕ) (out c : Bytes) (cs : List Bytes) (s : S) (rest : Bytes)
      → length cs < n
      → All (λ p. length p ≤ max_payload_len - 3) (c ∷ cs)
      → length out + length (concat (c ∷ cs)) ≤ max_tsdu_len
      → ordered.Carries s (packets (mark_last (c ∷ cs)) ++ rest)
      → (s' : S) × (recv_loop stream n out s ≡ ok (out ++ concat (c ∷ cs), s'))
        × ordered.Carries s' rest
  unfolding recv_loop mark_last
  recv_loop-packets zero out c cs s rest more small fits carried = absurd (omega arith)
  recv_loop-packets (suc n) out c [] s rest more small fits carried =
      let (s₁, e₁, c₁) =
        recv-frame stream ordered s (2 ∷ 0xF0 ∷ 0x80 ∷ c) rest (omega (arith, small.0)) (
          subst (ordered.Carries s) (append_assoc (frame (2 ∷ 0xF0 ∷ 0x80 ∷ c)) [] rest) carried) in
      let e₂ = reassemble_last out c (omega (arith, fits, length-append c [])) in
      (s₁, rw (e₁, e₂) (ap (λ (t : Bytes). ok (out ++ t, s₁)) (sym (append-nil c))), c₁)
  recv_loop-packets (suc n) out c (d ∷ cs) s rest more small fits carried =
      let (s₁, e₁, c₁) =
        recv-frame stream ordered s (2 ∷ 0xF0 ∷ 0x00 ∷ c) (packets (mark_last (d ∷ cs)) ++ rest)
          (omega (arith, small.0))
          (subst (ordered.Carries s)
            (append_assoc (frame (2 ∷ 0xF0 ∷ 0x00 ∷ c)) (packets (mark_last (d ∷ cs))) rest)
            carried) in
      let e₂ = reassemble_mid out c (omega (arith, fits, length-append c (concat (d ∷ cs)))) in
      let (s₂, e₃, c₂) =
        recv_loop-packets n (out ++ c) d cs s₁ rest (omega arith) small.1
          (omega (arith, fits, length-append out c, length-append c (concat (d ∷ cs)))) c₁ in
      (
        s₂,
        rw (e₁, e₂, e₃) (ap (λ (t : Bytes). ok (t, s₂)) (append_assoc out c (concat (d ∷ cs)))),
        c₂,
      )

  send_all-Wrote :
      (ts : List Bytes) (s s' : S) (sent : Bytes)
      → send_all stream s ts ≡ ok s'
      → ordered.Wrote s sent
      → ordered.Wrote s' (sent ++ packets ts)
  unfolding send_all send
  send_all-Wrote [] s s' sent e w =
      let same : s ≡ s' = ok_injective e in
      subst (λ t. ordered.Wrote t (sent ++ [])) same
        (subst (ordered.Wrote s) (sym (append-nil sent)) w)
  send_all-Wrote (t ∷ ts) s s' sent e w =
      let (s₁, p, e₁) = >>=-eq-ok (or_io (stream.write_all (frame t) s)) _ e in
      subst (ordered.Wrote s') (append_assoc sent (frame t) (packets ts)) (
        send_all-Wrote ts s₁ s' (sent ++ frame t) e₁
          (ordered.writes s sent (frame t) s₁ w (or_io-eq-ok (stream.write_all (frame t) s) s₁ p)))

  -- Over streams that keep the octets in order: a TSDU of up to 16 MiB that `send_data` wrote is what
  -- `recv_data` returns at the other end, cut and put together again, once it is given as many rounds
  -- as there are data units; nothing is left on the stream.
  pub recv_data-send_data :
      (w w' r : S) (tsdu : Bytes) (rounds : ℕ)
      → length tsdu ≤ max_tsdu_len
      → length (data_tpdus tsdu default_tpdu_size) ≤ rounds
      → ordered.Wrote w []
      → send_data stream w tsdu ≡ ok w'
      → ((sent : Bytes) → ordered.Wrote w' sent → ordered.Carries r sent)
      → (r' : S) × (recv_data stream rounds r ≡ ok (tsdu, r')) × ordered.Carries r' []
  unfolding recv_data send_data
  recv_data-send_data w w' r tsdu rounds small enough fresh e delivered =
      let sent = send_all-Wrote (data_tpdus tsdu default_tpdu_size) w w' [] e fresh in
      from_pieces (pieces tsdu default_tpdu_size) rounds r tsdu small
        (pieces_lem tsdu default_tpdu_size)
        (rw (data_tpdus-mark_last tsdu default_tpdu_size) at enough)
        (rw (data_tpdus-mark_last tsdu default_tpdu_size) at (delivered _ sent))
    where
      from_pieces :
          (cs : List Bytes) (rounds : ℕ) (r : S) (tsdu : Bytes)
          → length tsdu ≤ max_tsdu_len
          → (concat cs ≡ tsdu)
            × All (λ c. length c ≤ max (default_tpdu_size - 3) 1) cs
            × (1 ≤ length cs)
          → length (mark_last cs) ≤ rounds
          → ordered.Carries r (packets (mark_last cs))
          → (r' : S) × (recv_loop stream rounds [] r ≡ ok (tsdu, r')) × ordered.Carries r' []
      from_pieces [] rounds r tsdu small (whole, size, some_piece) enough c =
          absurd (omega (arith, some_piece))
      from_pieces (c ∷ cs) rounds r tsdu small (whole, size, some_piece) enough carried =
          let (r', e, c') =
            recv_loop-packets rounds [] c cs r [] (omega (arith, enough, length-mark_last (c ∷ cs)))
              (All-weaken (c ∷ cs) size) (omega (arith, small, ap length whole))
              (subst (ordered.Carries r) (sym (append-nil (packets (mark_last (c ∷ cs)))))
                carried) in
          (r', e ∙ ap (λ (t : Bytes). ok (t, r')) whole, c')
