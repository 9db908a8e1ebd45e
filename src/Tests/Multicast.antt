-- ===== src/Tests/Multicast.antt =====
-- The frames and the state machines of GOOSE on concrete input.
use iec_61850_studio.Base.{
  ℕ, ◌≤◌, ◌<◌, ◌^◌, ◌+◌, ap, sym, ◌∙◌, append-nil, Option, if◌then◌else◌, List, [], ◌∷◌, ◌++◌, none,
  some, length, replicate, All, ◌⊎◌, Bool, true, false, ◌≡◌, refl, arith,
}
use iec_61850_studio.Base.Result.{ok, err}
use iec_61850_studio.Base.Maps.{get, insert}
use iec_61850_studio.Base.Words.{Bytes}
use iec_61850_studio.Ber.Data.{UtcTime, Items, nil, cons, bool}
use iec_61850_studio.Ethernet.{VlanTag, EthHeader, FrameSigner, parse_eth_appid_auth}
use iec_61850_studio.Ethernet.Parse.{app_header}
use iec_61850_studio.Ethernet.RoundTrip.{IsEthHeader, reserved1}
use iec_61850_studio.Ethernet.Frames.{signed_frame, parse_eth_appid_auth-signed_frame}
use iec_61850_studio.Tests.Codec.{halves, halves-IsIeee}
use iec_61850_studio.Ber.Primitives.{encode_unsigned, encode_bool, sign_octet, strip_zeros}
use iec_61850_studio.Ber.Writer.{primitive, tlv, boolean, unsigned, visible_string}
use iec_61850_studio.Ber.Length.{encode_len}
use iec_61850_studio.Ber.Tag
use iec_61850_studio.Ber.Data.{encode_items}
use iec_61850_studio.Ber.Data.Shape.{AreEncodable, depth_items}
use iec_61850_studio.Goose.Pdu
use iec_61850_studio.Goose.Pdu.{GoosePdu, GooseResult}
use iec_61850_studio.Goose.Pdu.RoundTrip.{IsGoosePdu, decode-encode_pdu}
use iec_61850_studio.Goose.Frame.{GooseFrame, encode, decode, decode-encode_frame}
use iec_61850_studio.Goose.Publisher.{
  GooseConfig, State, initial, sent_frame, changed, retransmitted, next_st_num, ttl_ms,
}
use iec_61850_studio.Goose.Publisher.Sequence.{
  values, timer, state_after, IsState, state_after-IsState,
}
use iec_61850_studio.Goose.Frame.{
  FrameVerifier, IsVerified, ethertype_goose, encode_signed, decode_verified, auth_status, invalid,
}
use iec_61850_studio.Goose.Subscriber.{
  GooseFilter, GooseEvent, was_tracked, Track, Tracks, Loop, begin, link_arm, sweep_arm, on_frame,
  track_and_build, plain_event, classify, earliest, next_deadline, sim_gate, expired, state_change,
  retransmission, accepts, on_receive,
}
use iec_61850_studio.Goose.Subscriber
use iec_61850_studio.Goose.Subscriber.Safety.{on_receive_lem}
use iec_61850_studio.Goose.Subscriber.Timer.{received, loop_after, loop_after-sweep_arm}
use iec_61850_studio.Goose.Delivery.{Happening, event, swept, observe, meant, observe-meant}

abbrev tagged : VlanTag
tagged = record { pcp = 4; dei = true; vid = 100 }

abbrev hdr : EthHeader
hdr = record {
  dst = 1 ∷ 12 ∷ 205 ∷ 1 ∷ 0 ∷ 1 ∷ [];
  src = 0 ∷ 17 ∷ 34 ∷ 51 ∷ 68 ∷ 85 ∷ [];
  vlan = some tagged;
  ethertype = 0x88B8;
  simulation = true;
}

hdr-IsEthHeader : IsEthHeader hdr
hdr-IsEthHeader = record {
  dst_six = refl;
  src_six = refl;
  vlan_fits = (omega arith, omega arith);
  ethertype_fits = omega arith;
  not_tag = λ e. omega (arith, e);
}

-- A signer whose tags are the length of the data, in two octets.
abbrev measuring : FrameSigner
measuring = record { tag_len = 2; sign_tag = λ bytes. length bytes ∷ 0 ∷ [] }

parse_eth_appid_auth-signed_frame_example :
    (covered : Bytes) × (covered ≡ app_header 0x1234 (8 + 1 + 2) (reserved1 true) 2 ++ 9 ∷ [])
    × (parse_eth_appid_auth (signed_frame hdr 0x1234 (9 ∷ []) measuring) 0x88B8
        ≡ ok (record {
          hdr = hdr;
          appid = 0x1234;
          apdu = 9 ∷ [];
          signed_data = covered;
          auth_tag = length covered ∷ 0 ∷ [];
        }))
parse_eth_appid_auth-signed_frame_example =
    parse_eth_appid_auth-signed_frame hdr 0x1234 (9 ∷ []) measuring hdr-IsEthHeader (omega arith)
      (λ d. refl) (omega arith) (omega arith)

abbrev config : GooseConfig
config = record {
  dst = hdr.dst;
  src = hdr.src;
  vlan = none;
  appid = 1;
  gocb_ref = 97 ∷ [];
  dat_set = [];
  go_id = [];
  conf_rev = 1;
  test = false;
  simulation = false;
  t_min = 4000000;
  t_max = 1000000000;
}

abbrev epoch : UtcTime
epoch = record { raw = replicate 8 0 }

abbrev never : Items → Items → Bool
never a b = false

abbrev trip : Items
trip = cons (bool true) nil

abbrev fresh : State
fresh = initial config epoch

fresh-IsState : IsState config never fresh
unfolding initial
fresh-IsState = record {
  st_num_fits = omega arith;
  sq_num_fits = omega arith;
  interval_fits = omega arith;
}

state_after-IsState_example :
    IsState config never (state_after config never fresh (values epoch trip ∷ timer ∷ timer ∷ []))
state_after-IsState_example =
    state_after-IsState config never fresh (values epoch trip ∷ timer ∷ timer ∷ []) (omega arith)
      fresh-IsState

abbrev any : GooseFilter
any = record { gocb_ref = none; appid = none; dst = none }

-- New values, a sweep after their time is up, and retransmissions in front of and behind it.
abbrev happenings : List Happening
happenings =
    event timer 0
    ∷ event (values epoch trip) 10
    ∷ event timer 20
    ∷ swept 30
    ∷ event (values epoch nil) 40
    ∷ swept 9000000000
    ∷ event timer 9000000001
    ∷ []

filter_passes : accepts any (sent_frame config fresh) ≡ true
unfolding accepts
filter_passes = refl

observe-meant_example :
    observe config never any (record { tracks = []; simulated_subs = [] }) fresh happenings
    ≡ meant config never any none fresh happenings
unfolding initial
observe-meant_example =
    observe-meant config never any [] fresh happenings (omega arith) (omega arith) filter_passes

-- What that is.
meant-happenings :
    meant config never any none fresh happenings
    ≡ state_change ∷ retransmission ∷ state_change ∷ expired ∷ state_change ∷ []
unfolding meant changed retransmitted initial next_st_num ttl_ms
meant-happenings = refl

abbrev sample : GoosePdu
sample = record {
  gocb_ref = 97 ∷ [];
  time_allowed_to_live = 2000;
  dat_set = 98 ∷ [];
  go_id = 99 ∷ [];
  t = epoch;
  st_num = 7;
  sq_num = 3;
  test = false;
  conf_rev = 1;
  nds_com = false;
  num_dat_set_entries = 1;
  all_data = trip;
}

sample-IsGoosePdu : IsGoosePdu halves sample
unfolding AreEncodable depth_items
sample-IsGoosePdu = record {
  gocb_ref_utf8 = refl;
  dat_set_utf8 = refl;
  go_id_utf8 = refl;
  t_eight = refl;
  u32s = omega arith;
  encodable = (tt, tt);
  nests = omega arith;
}

sample_size : length (Pdu.encode halves sample) ≡ 48
unfolding Pdu.encode tlv visible_string unsigned boolean primitive encode_unsigned encode_bool
    encode_len Tag.encode encode_items sign_octet strip_zeros
sample_size = refl

abbrev sample_frame : GooseFrame
sample_frame = record {
  dst = hdr.dst;
  src = hdr.src;
  vlan = some tagged;
  appid = 1;
  simulation = true;
  pdu = sample;
}

decode-encode_frame_example : decode halves (encode halves sample_frame) ≡ ok sample_frame
decode-encode_frame_example =
    decode-encode_frame halves sample_frame halves-IsIeee hdr-IsEthHeader (omega arith)
      sample-IsGoosePdu (omega (arith, sample_size))

abbrev track : ℕ → Track
track due = record {
  last_st = 1;
  last_sq = 0;
  deadline = due;
  go_id = [];
  dat_set = [];
  appid = 1;
  src = [];
  simulation = false;
}

abbrev two_tracks : Tracks
two_tracks = (1 ∷ [], track 10) ∷ (2 ∷ [], track 30) ∷ []

abbrev idle : Subscriber.State
idle = record { tracks = two_tracks; simulated_subs = [] }

-- The loop behind a frame that was received.
abbrev listening : Loop
listening = loop_after halves any none (begin 0) (received true 5 (encode halves sample_frame) ∷ [])

frame_heard :
    on_receive halves any none true 5 (begin 0).state (encode halves sample_frame)
    ≡ on_frame any true 5 (begin 0).state sample_frame
unfolding on_receive
frame_heard =
    ap
      (λ (r : GooseResult GooseFrame). elim r [
        | ok received_frame ↦ on_frame any true 5 (begin 0).state received_frame
        | err _ ↦ ((begin 0).state, none)
      ])
      decode-encode_frame_example

listening_due : listening.sweep_at ≡ 2000000005
unfolding link_arm on_frame accepts sim_gate track_and_build plain_event classify begin
    next_deadline earliest get insert
listening_due =
    ap
      (λ (r : Subscriber.State × Option GooseEvent).
        if was_tracked r.1 then next_deadline 5 r.0.tracks else (begin 0).sweep_at)
      frame_heard

loop_after-sweep_arm_example :
    All (λ p. listening.sweep_at ≤ p.1.deadline) listening.state.tracks
    × ((listening.state.tracks ≡ []) ⊎ (1 ≤ length (sweep_arm 2000000009 listening).1))
    × (2000000009 < (sweep_arm 2000000009 listening).0.sweep_at)
loop_after-sweep_arm_example =
    loop_after-sweep_arm halves any none 0 2000000009
      (received true 5 (encode halves sample_frame) ∷ []) (omega (arith, listening_due))

abbrev reject_all : FrameVerifier
reject_all signed tag = false

-- A frame that is signed, for a verifier that does not accept the signature.
abbrev forged : Bytes
forged = encode_signed halves sample_frame measuring

forged_status : decode_verified halves forged reject_all ≡ ok (sample_frame, invalid)
unfolding decode_verified auth_status encode_signed
forged_status =
    let (covered, _, e) =
      parse_eth_appid_auth-signed_frame hdr 1 (Pdu.encode halves sample) measuring hdr-IsEthHeader
        (omega arith) (λ d. refl) (omega arith) (omega (arith, sample_size)) in
    let apdu : Bytes = Pdu.encode halves sample in
    let whole = append-nil apdu in
    let fits : length (apdu ++ []) < 2 ^ 64 = omega (arith, ap length whole, sample_size) in
    let decoded =
      ap (Pdu.decode halves) (sym whole)
      ∙ decode-encode_pdu halves sample [] halves-IsIeee sample-IsGoosePdu fits in
    rw (e, decoded) refl

on_receive_lem_example :
    ((on_receive halves any (some reject_all) false 5 idle forged).0 ≡ idle)
    ⊎ IsVerified reject_all ethertype_goose forged
on_receive_lem_example = on_receive_lem halves any reject_all false 5 idle forged
