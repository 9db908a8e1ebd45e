-- ===== src/Tests/Sampled.antt =====
-- Sampled values on concrete input.
use iec_61850_studio.Base.{
  ◌+◌, ◌%◌, [], ◌∷◌, ◌++◌, none, some, length, replicate, ◌⊎◌, true, false, ◌≡◌, ◌≢◌, refl, arith,
  length-append, ap, not, bytes_eq_refl,
}
use iec_61850_studio.Base.Result.{ok}
use iec_61850_studio.Base.Words.{Bytes}
use iec_61850_studio.Ber.Data.{UtcTime}
use iec_61850_studio.Ber.Tag
use iec_61850_studio.Ber.Length.{encode_len}
use iec_61850_studio.Ber.Primitives.{encode_unsigned, sign_octet, strip_zeros}
use iec_61850_studio.Ber.Writer.{primitive, tlv, unsigned, visible_string, octet_string, sequence}
use iec_61850_studio.Ethernet.{FrameSigner}
use iec_61850_studio.Ethernet.RoundTrip.{IsEthHeader}
use iec_61850_studio.Goose.Frame.{AuthStatus, FrameVerifier, IsVerified, valid}
use iec_61850_studio.Goose.Subscriber
use iec_61850_studio.Sv.Pdu
use iec_61850_studio.Sv.Pdu.{Asdu, SvPdu}
use iec_61850_studio.Sv.Pdu.RoundTrip.{IsAsdu, IsSvPdu, decode-encode_sv}
use iec_61850_studio.Sv.Frame
use iec_61850_studio.Sv.Frame.{
  SvFrame, ethertype_sv, encode_signed, decode_verified, decode-encode_sv_frame,
  decode_verified-encode_signed,
}
use iec_61850_studio.Sv.Publisher.{SvConfig, sent_frame, sent_asdu, smp_cnt_at, next_smp_cnt}
use iec_61850_studio.Sv.Subscriber.{SvFilter, SvEventKind, sample_loss, State, sim_gate, on_receive}
use iec_61850_studio.Sv.Subscriber.Simulation.{
  Seen, latches, had_simulated, passes, sim_gate-passes,
}
use iec_61850_studio.Sv.Subscriber.Safety.{OnlyReports, on_receive-OnlyReports}
use iec_61850_studio.Sv.Delivery.{IsPlain, Sent, octets, kinds, kind_behind, receive-behind}
use iec_61850_studio.Tests.Codec.{halves}

abbrev epoch : UtcTime
epoch = record { raw = replicate 8 0 }

-- An ASDU with some of its optional fields.
abbrev measured : Asdu
measured = record {
  sv_id = 77 ∷ 85 ∷ [];
  dat_set = none;
  smp_cnt = 3999;
  conf_rev = 1;
  refr_tm = some epoch;
  smp_synch = 2;
  smp_rate = some 4000;
  sample = 0xaa ∷ 0xbb ∷ [];
  smp_mod = none;
}

abbrev two : SvPdu
two = record { no_asdu = 2; asdus = measured ∷ measured ∷ [] }

measured-IsAsdu : IsAsdu halves measured
measured-IsAsdu = record {
  sv_id_utf8 = refl;
  dat_set_utf8 = tt;
  smp_cnt_u16 = omega arith;
  conf_rev_u32 = omega arith;
  refr_tm_eight = refl;
  smp_rate_u16 = omega arith;
  smp_mod_u16 = tt;
}

two-IsSvPdu : IsSvPdu halves two
two-IsSvPdu = record {
  no_asdu_u32 = omega arith;
  asdus_IsAsdu = (measured-IsAsdu, (measured-IsAsdu, tt));
}

two_size : length (Pdu.encode two) ≡ 81
unfolding Pdu.encode tlv primitive unsigned visible_string octet_string sequence encode_unsigned
    sign_octet strip_zeros Tag.encode encode_len
two_size = refl

decode-encode_sv_example : Pdu.decode halves (Pdu.encode two ++ 1 ∷ []) ≡ ok two
decode-encode_sv_example =
    decode-encode_sv halves two (1 ∷ []) two-IsSvPdu
      (omega (arith, length-append (Pdu.encode two) (1 ∷ []), two_size))

abbrev frame : SvFrame
frame = record {
  dst = 1 ∷ 12 ∷ 205 ∷ 4 ∷ 0 ∷ 1 ∷ [];
  src = 0 ∷ 17 ∷ 34 ∷ 51 ∷ 68 ∷ 85 ∷ [];
  vlan = none;
  appid = 0x4000;
  simulation = false;
  pdu = two;
}

frame-IsEthHeader : IsEthHeader (Frame.header frame)
frame-IsEthHeader = record {
  dst_six = refl;
  src_six = refl;
  vlan_fits = tt;
  ethertype_fits = omega arith;
  not_tag = λ e. omega (arith, e);
}

decode-encode_sv_frame_example : Frame.decode halves (Frame.encode frame) ≡ ok frame
decode-encode_sv_frame_example =
    decode-encode_sv_frame halves frame frame-IsEthHeader (omega arith) two-IsSvPdu
      (omega (arith, two_size))

abbrev constant : FrameSigner
constant = record { tag_len = 1; sign_tag = λ bytes. 7 ∷ [] }

abbrev accept_all : FrameVerifier
accept_all signed tag = true

-- A publisher that counts to four.
abbrev four : SvConfig
four = record {
  dst = frame.dst;
  src = frame.src;
  vlan = none;
  appid = 0x4000;
  sv_id = 77 ∷ [];
  dat_set = none;
  conf_rev = 1;
  smp_rate = 4000;
  smp_synch = 2;
  sample_period = 250000;
  include_refr_tm = true;
  smp_cnt_wrap = 4;
  simulation = false;
  security = none;
}

four-IsPlain : IsPlain halves four
four-IsPlain = record {
  hdr_IsEthHeader = frame-IsEthHeader;
  appid_u16 = omega arith;
  sv_id_utf8 = refl;
  dat_set_utf8 = tt;
  conf_rev_u32 = omega arith;
  smp_rate_u16 = omega arith;
  wrap_u16 = omega arith;
  real = refl;
  not_signed = refl;
}

sent_size :
    (length (Pdu.encode (sent_frame four epoch (5 ∷ []) (smp_cnt_at four 1)).pdu) ≡ 42)
    × (length (Pdu.encode (sent_frame four epoch (6 ∷ []) (smp_cnt_at four (1 + 1 + 1))).pdu) ≡ 42)
unfolding sent_frame sent_asdu smp_cnt_at next_smp_cnt Pdu.encode tlv primitive unsigned
    visible_string octet_string sequence encode_unsigned sign_octet strip_zeros Tag.encode
    encode_len
sent_size = (refl, refl)

abbrev first : Sent four 1
first = record { now = epoch; content = 5 ∷ []; eight = refl; fits = omega (arith, sent_size) }

abbrev third : Sent four (1 + 1 + 1)
third = record { now = epoch; content = 6 ∷ []; eight = refl; fits = omega (arith, sent_size) }

abbrev any : SvFilter
any = record { appid = none; dst = none; sv_id = some (77 ∷ []) }

abbrev idle : State
idle = record { last = []; simulated_subs = [] }

receive-behind_example :
    kinds
      (on_receive halves any none false
        (on_receive halves any none false idle (octets four first)).0
        (octets four third)).1
    ≡ kind_behind 4 (1 % 4) 1 ∷ []
receive-behind_example =
    receive-behind halves any four idle 1 1 first third four-IsPlain
      (refl, refl, ap not (bytes_eq_refl (77 ∷ []))) (omega arith)

-- The kind of that event: one sample is missing.
loss_told : kind_behind 4 (1 % 4) 1 ≡ sample_loss 2 3
loss_told = refl

-- A cycle that is resumed further on is not told as a loss.
loss_missed : kind_behind 4 3 2 ≡ SvEventKind.sample
loss_missed = refl

abbrev latched : Seen
latched = record { sim = true; sv_id = 7 ∷ []; simulated = true }

abbrev real : Seen
real = record { sim = true; sv_id = 7 ∷ []; simulated = false }

sim_gate-passes_example :
    ((sim_gate true (latches (latched ∷ [])) (7 ∷ []) false).0 ≡ passes (latched ∷ []) real)
    × (Subscriber.sim_gate true (latches (latched ∷ [])) (7 ∷ []) false
        ≡ sim_gate true (latches (latched ∷ [])) (7 ∷ []) false)
sim_gate-passes_example = sim_gate-passes (latched ∷ []) real

-- Such a frame is dropped.
real_dropped : passes (latched ∷ []) real ≡ false
unfolding passes had_simulated
real_dropped = rw (bytes_eq_refl (7 ∷ [])) refl

abbrev reject_all : FrameVerifier
reject_all signed tag = false

-- A frame that is signed, for a verifier that does not accept the signature.
abbrev forged : Bytes
forged = encode_signed frame constant

on_receive-OnlyReports_example :
    IsVerified reject_all ethertype_sv forged
    ⊎ ((status : AuthStatus) × (status ≢ valid)
        × OnlyReports status idle (on_receive halves any (some reject_all) false idle forged))
on_receive-OnlyReports_example = on_receive-OnlyReports halves any reject_all false idle forged
