-- ===== src/Tests/Carriage.antt =====
-- The transport on concrete input.
use iec_61850_studio.Base.{
  [], ◌∷◌, ◌++◌, none, some, length, take, drop, ltb, if◌then◌else◌, ◌≡◌, refl, ap, ◌∙◌, arith,
  length-append, take_front, drop_front, ltb-false,
}
use iec_61850_studio.Base.Result.{ok}
use iec_61850_studio.Base.Words.{Bytes}
use iec_61850_studio.Transport.Tpkt.{frame, payload_len}
use iec_61850_studio.Transport.Cotp.{
  parse_connection_confirm, data_tpdus, default_tpdu_size, size_loop, tpdu_size_from_params,
  data_tpdu, parse_data_tpdu_eot,
}
use iec_61850_studio.Transport.Connection.{
  Stream, recv, recv_loop, recv_data, reassemble_into, send, send_all, send_data,
}
use iec_61850_studio.Transport.Connection.Delivery.{IsOrdered, recv_data-send_data}

-- A stream in memory: what was written is read.
abbrev pipe : Stream Bytes
pipe = record {
  read_exact = λ n s. if ltb (length s) n then none else some (take n s, drop n s);
  write_all = λ bs s. some (s ++ bs);
}

pipe-reads :
    (s xs ys : Bytes)
    → s ≡ xs ++ ys
    → (s' : Bytes) × (pipe.read_exact (length xs) s ≡ some (xs, s')) × (s' ≡ ys)
pipe-reads s xs ys e = (
  ys,
  rw
      (
        e,
        ltb-false (length (xs ++ ys)) (length xs) (omega (arith, length-append xs ys)),
        take_front xs ys,
        drop_front xs ys,
      )
      refl,
  refl,
)

pipe-writes : (s xs ys s' : Bytes) → s ≡ xs → pipe.write_all ys s ≡ some s' → s' ≡ xs ++ ys
pipe-writes s xs ys s' e w = let same : s' ≡ s ++ ys = cc in same ∙ ap (λ (t : Bytes). t ++ ys) e

abbrev pipe-IsOrdered : IsOrdered pipe
pipe-IsOrdered = record {
  Carries = λ s bytes. s ≡ bytes;
  Wrote = λ s bytes. s ≡ bytes;
  reads = pipe-reads;
  writes = pipe-writes;
}

abbrev hello : Bytes
hello = 104 ∷ 105 ∷ []

hello_sent : send_data pipe [] hello ≡ ok (3 ∷ 0 ∷ 0 ∷ 9 ∷ 2 ∷ 0xF0 ∷ 0x80 ∷ 104 ∷ 105 ∷ [])
unfolding send_data data_tpdus frame send_all send data_tpdu
hello_sent = refl

hello_units : length (data_tpdus hello default_tpdu_size) ≡ 1
unfolding data_tpdus
hello_units = refl

recv_data-send_data_example :
    (r' : Bytes) × (recv_data pipe 1 (3 ∷ 0 ∷ 0 ∷ 9 ∷ 2 ∷ 0xF0 ∷ 0x80 ∷ 104 ∷ 105 ∷ [])
      ≡ ok (hello, r'))
    × (r' ≡ [])
recv_data-send_data_example =
    recv_data-send_data pipe pipe-IsOrdered [] (3 ∷ 0 ∷ 0 ∷ 9 ∷ 2 ∷ 0xF0 ∷ 0x80 ∷ 104 ∷ 105 ∷ [])
      (3 ∷ 0 ∷ 0 ∷ 9 ∷ 2 ∷ 0xF0 ∷ 0x80 ∷ 104 ∷ 105 ∷ []) hello 1 (omega arith)
      (omega (arith, hello_units)) refl hello_sent (λ sent e. e)

hello_received :
    recv_data pipe 1 (3 ∷ 0 ∷ 0 ∷ 9 ∷ 2 ∷ 0xF0 ∷ 0x80 ∷ 104 ∷ 105 ∷ []) ≡ ok (hello, [])
unfolding recv_data recv_loop recv reassemble_into parse_data_tpdu_eot payload_len
hello_received = refl

larger_size :
    parse_connection_confirm (9 ∷ 0xD0 ∷ 0x12 ∷ 0x34 ∷ 0 ∷ 2 ∷ 0 ∷ 0xC0 ∷ 1 ∷ 0x0B ∷ []) ≡ ok 2048
unfolding parse_connection_confirm size_loop tpdu_size_from_params
larger_size = refl
