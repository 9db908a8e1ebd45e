-- ===== src/Goose/Subscriber.antt =====
-- crates/iec61850-goose/src/subscriber.rs: the loop of `run` as a step per event. Instants are in
-- nanoseconds. The map of tracks is an association list with one entry per key, and its order, which a
-- `HashMap` does not fix, is that of the list. The consumer of the events is taken to be there.
pub mod Safety
pub mod Timer
use iec_61850_studio.Base.{
  ℕ, ◌+◌, ◌*◌, min, List, [], ◌∷◌, Option, none, some, Bool, true, false, ltb, leb, ◌==◌, not, ◌&&◌,
  if◌then◌else◌, bytes_eq, replicate,
}
use iec_61850_studio.Base.Result.{ok, err}
use iec_61850_studio.Base.Words.{Bytes}
use iec_61850_studio.Base.Maps.{get, insert, contains}
use iec_61850_studio.Ber.Std.{Std}
use iec_61850_studio.Ber.Data.{UtcTime, Items, nil}
use iec_61850_studio.Goose.Pdu.{GooseResult}
use iec_61850_studio.Goose.Frame.{
  GooseFrame, AuthStatus, FrameVerifier, decode, decode_verified, valid,
}
use iec_61850_studio.Goose.Publisher.{wrapping_succ}

pub record GooseFilter : Type 0 where
  pub gocb_ref : Option Bytes
  pub appid : Option ℕ
  pub dst : Option Bytes

-- `is_none_or`
abbrev pub is_none_or {ℓ} : {A : Type ℓ} → Option A → (A → Bool) → Bool
is_none_or none test = true
is_none_or (some a) test = test a

unfoldable pub accepts : GooseFilter → GooseFrame → Bool
accepts filter frame =
    is_none_or filter.appid (λ a. a == frame.appid)
    && is_none_or filter.dst (λ d. bytes_eq d frame.dst)
    && is_none_or filter.gocb_ref (λ g. bytes_eq g frame.pdu.gocb_ref)

pub data GooseEventKind : Type 0 where
  state_change retransmission : GooseEventKind
  loss_suspected : ℕ → ℕ → GooseEventKind
  expired : GooseEventKind
  auth_failed : AuthStatus → GooseEventKind

pub record GooseEvent : Type 0 where
  pub gocb_ref : Bytes
  pub go_id : Bytes
  pub dat_set : Bytes
  pub appid : ℕ
  pub src : Bytes
  pub st_num : ℕ
  pub sq_num : ℕ
  pub conf_rev : ℕ
  pub test : Bool
  pub simulation : Bool
  pub t : UtcTime
  pub time_allowed_to_live : ℕ
  pub values : Items
  pub kind : GooseEventKind

pub record Track : Type 0 where
  pub last_st : ℕ
  pub last_sq : ℕ
  pub deadline : ℕ
  pub go_id : Bytes
  pub dat_set : Bytes
  pub appid : ℕ
  pub src : Bytes
  pub simulation : Bool

abbrev pub Tracks : Type 0
Tracks = List (Bytes × Track)

-- `sim_gate`: the verdict and the subscriptions that are latched to simulation.
unfoldable pub sim_gate : Bool → List Bytes → Bytes → Bool → Bool × List Bytes
sim_gate sim simulated_subs gocb_ref frame_simulated =
    if not sim
    then (not frame_simulated, [])
    else if frame_simulated
    then (
      true,
      if contains simulated_subs gocb_ref then simulated_subs else gocb_ref ∷ simulated_subs,
    )
    else (not (contains simulated_subs gocb_ref), simulated_subs)

unfoldable pub plain_event : GooseFrame → GooseEventKind → GooseEvent
plain_event frame kind =
    let p = frame.pdu in
    record {
      gocb_ref = p.gocb_ref;
      go_id = p.go_id;
      dat_set = p.dat_set;
      appid = frame.appid;
      src = frame.src;
      st_num = p.st_num;
      sq_num = p.sq_num;
      conf_rev = p.conf_rev;
      test = p.test;
      simulation = frame.simulation;
      t = p.t;
      time_allowed_to_live = p.time_allowed_to_live;
      values = p.all_data;
      kind = kind;
    }

-- The match on the track of the control block.
unfoldable pub classify : Option Track → ℕ → ℕ → GooseEventKind
classify none st_num sq_num = state_change
classify (some prev) st_num sq_num =
    if not (st_num == prev.last_st)
    then state_change
    else if sq_num == wrapping_succ prev.last_sq
    then retransmission
    else if ltb (wrapping_succ prev.last_sq) sq_num
    then loss_suspected (wrapping_succ prev.last_sq) sq_num
    else retransmission

abbrev pub track_of : ℕ → GooseFrame → Track
track_of now frame = record {
  last_st = frame.pdu.st_num;
  last_sq = frame.pdu.sq_num;
  deadline = now + frame.pdu.time_allowed_to_live * 1000000;
  go_id = frame.pdu.go_id;
  dat_set = frame.pdu.dat_set;
  appid = frame.appid;
  src = frame.src;
  simulation = frame.simulation;
}

unfoldable pub track_and_build : ℕ → Tracks → GooseFrame → Tracks × GooseEvent
track_and_build now tracks frame =
    let kind = classify (get tracks frame.pdu.gocb_ref) frame.pdu.st_num frame.pdu.sq_num in
    (insert tracks frame.pdu.gocb_ref (track_of now frame), plain_event frame kind)

-- `next_deadline`: the earliest of the tracks, or a day ahead.
abbrev pub far_future : ℕ → ℕ
far_future now = now + 24 * 3600 * 1000000000

-- `unwrap_or_else(far_future)`
abbrev pub or_far_future : ℕ → Option ℕ → ℕ
or_far_future now none = far_future now
or_far_future now (some d) = d

unfoldable pub earliest : Tracks → Option ℕ
earliest [] = none
earliest ((k, tr) ∷ tracks) = elim (earliest tracks) [
  | none ↦ some tr.deadline
  | some d ↦ some (min tr.deadline d)
]

unfoldable pub next_deadline : ℕ → Tracks → ℕ
next_deadline now tracks = or_far_future now (earliest tracks)

unfoldable pub expired_event : Bytes → Track → GooseEvent
expired_event gocb tr = record {
  gocb_ref = gocb;
  go_id = tr.go_id;
  dat_set = tr.dat_set;
  appid = tr.appid;
  src = tr.src;
  st_num = tr.last_st;
  sq_num = tr.last_sq;
  conf_rev = 0;
  test = false;
  simulation = tr.simulation;
  t = record { raw = replicate 8 0 };
  time_allowed_to_live = 0;
  values = nil;
  kind = expired;
}

-- The arm of the sweep: the tracks whose time is up are removed, each with an event.
unfoldable pub sweep : ℕ → Tracks → Tracks × List GooseEvent
sweep now [] = ([], [])
sweep now ((k, tr) ∷ tracks) =
    let (kept, events) = sweep now tracks in
    if leb tr.deadline now then (kept, expired_event k tr ∷ events) else ((k, tr) ∷ kept, events)

pub record State : Type 0 where
  pub tracks : Tracks
  pub simulated_subs : List Bytes

-- A frame whose signature is in order, or that needs none.
unfoldable pub on_frame : GooseFilter → Bool → ℕ → State → GooseFrame → State × Option GooseEvent
on_frame filter sim now s frame =
    let (verdict, subs) = sim_gate sim s.simulated_subs frame.pdu.gocb_ref frame.simulation in
    let (tracks, event) = track_and_build now s.tracks frame in
    if not (accepts filter frame)
    then (s, none)
    else if not verdict
    then (record s { simulated_subs = subs }, none)
    else (record { tracks = tracks; simulated_subs = subs }, some event)

-- A frame with the status of its signature.
unfoldable pub on_verified :
    GooseFilter → Bool → ℕ → State → GooseFrame → AuthStatus → State × Option GooseEvent
on_verified filter sim now s frame valid = on_frame filter sim now s frame
on_verified filter sim now s frame status =
    if accepts filter frame then (s, some (plain_event frame (auth_failed status))) else (s, none)

-- What `decode_verified` made of the octets.
unfoldable pub on_result :
    GooseFilter
    → Bool
    → ℕ
    → State
    → GooseResult (GooseFrame × AuthStatus)
    → State × Option GooseEvent
on_result filter sim now s (ok (frame, status)) = on_verified filter sim now s frame status
on_result filter sim now s (err _) = (s, none)

-- The arm of the link.
unfoldable pub on_receive :
    Std → GooseFilter → Option FrameVerifier → Bool → ℕ → State → Bytes → State × Option GooseEvent
on_receive std filter none sim now s bytes = elim (decode std bytes) [
  | ok frame ↦ on_frame filter sim now s frame
  | err _ ↦ (s, none)
]
on_receive std filter (some verify) sim now s bytes =
    on_result filter sim now s (decode_verified std bytes verify)

-- The variables of `run` and the instant that the timer `sweep` is set to.
pub record Loop : Type 0 where
  pub state : State
  pub sweep_at : ℕ

unfoldable pub begin : ℕ → Loop
begin now = record {
  state = record { tracks = []; simulated_subs = [] };
  sweep_at = far_future now;
}

abbrev pub is_auth_failed : GooseEventKind → Bool
is_auth_failed state_change = false
is_auth_failed retransmission = false
is_auth_failed (loss_suspected expected got) = false
is_auth_failed expired = false
is_auth_failed (auth_failed status) = true

-- Whether the arm of the link comes to its end, behind `track_and_build`: every `continue` leaves no event, or that of a failed
-- signature.
abbrev pub was_tracked : Option GooseEvent → Bool
was_tracked none = false
was_tracked (some e) = not (is_auth_failed e.kind)

-- The arm of the link, with `sweep.reset(next_deadline(&tracks))` at its end.
unfoldable pub link_arm :
    Std → GooseFilter → Option FrameVerifier → Bool → ℕ → Loop → Bytes → Loop × Option GooseEvent
link_arm std filter security sim now l bytes =
    let (s, e) = on_receive std filter security sim now l.state bytes in
    (
      record {
        state = s;
        sweep_at = if was_tracked e then next_deadline now s.tracks else l.sweep_at;
      },
      e,
    )

-- The arm of the timer.
unfoldable pub sweep_arm : ℕ → Loop → Loop × List GooseEvent
sweep_arm now l =
    let (tracks, events) = sweep now l.state.tracks in
    (
      record { state = record l.state { tracks = tracks }; sweep_at = next_deadline now tracks },
      events,
    )
