-- ===== src/Sv/Subscriber.antt =====
-- crates/iec61850-sv/src/subscriber.rs: the loop of `run` as a step per received frame. `last` is an association
-- list with one entry per `svID`. The consumer of the events is taken to be there.
pub mod Simulation
pub mod Safety
use iec_61850_studio.Base.{
  ℕ, ◌+◌, ◌%◌, ◌^◌, List, [], ◌∷◌, ◌++◌, Option, none, some, Bool, true, false, ltb, ◌==◌, not,
  ◌&&◌, ◌||◌, if◌then◌else◌, bytes_eq,
}
use iec_61850_studio.Base.Result.{ok, err}
use iec_61850_studio.Base.Words.{Bytes}
use iec_61850_studio.Base.Maps.{get, insert, contains}
use iec_61850_studio.Ber.Std.{Std}
use iec_61850_studio.Ber.Data.{UtcTime}
use iec_61850_studio.Goose.Frame.{AuthStatus, FrameVerifier, valid}
use iec_61850_studio.Sv.NineTwoLe.{NineTwoLe}
use iec_61850_studio.Sv.Pdu.{Asdu, SvResult, as_9_2le}
use iec_61850_studio.Sv.Frame.{SvFrame, decode, decode_verified}

pub record SvFilter : Type 0 where
  pub appid : Option ℕ
  pub dst : Option Bytes
  pub sv_id : Option Bytes

pub data SvEventKind : Type 0 where
  sample : SvEventKind
  sample_loss : ℕ → ℕ → SvEventKind
  wrap : SvEventKind
  auth_failed : AuthStatus → SvEventKind

pub record SvEvent : Type 0 where
  pub sv_id : Bytes
  pub appid : ℕ
  pub src : Bytes
  pub simulation : Bool
  pub smp_cnt : ℕ
  pub conf_rev : ℕ
  pub smp_synch : ℕ
  pub smp_rate : Option ℕ
  pub refr_tm : Option UtcTime
  pub sample : Bytes
  pub decoded_9_2le : Option NineTwoLe
  pub kind : SvEventKind

-- The variables of `run`.
pub record State : Type 0 where
  pub last : List (Bytes × ℕ)
  pub simulated_subs : List Bytes

-- `sim_gate`: the verdict and the flows that are latched to simulation.
unfoldable pub sim_gate : Bool → List Bytes → Bytes → Bool → Bool × List Bytes
sim_gate sim simulated_subs sv_id frame_simulated =
    if not sim
    then (not frame_simulated, [])
    else if frame_simulated
    then (true, if contains simulated_subs sv_id then simulated_subs else sv_id ∷ simulated_subs)
    else (not (contains simulated_subs sv_id), simulated_subs)

-- `u16::wrapping_add(1)`
abbrev pub wrapping_succ : ℕ → ℕ
wrapping_succ n = (n + 1) % 2 ^ 16

-- The match on the last counter of the flow.
unfoldable pub classify : Option ℕ → ℕ → SvEventKind
classify none smp_cnt = SvEventKind.sample
classify (some prev) smp_cnt =
    if smp_cnt == wrapping_succ prev
    then SvEventKind.sample
    else if smp_cnt == 0 && ltb 0 prev
    then wrap
    else if ltb (wrapping_succ prev) smp_cnt
    then sample_loss (wrapping_succ prev) smp_cnt
    else SvEventKind.sample

unfoldable pub event : SvFrame → Asdu → SvEventKind → SvEvent
event frame asdu kind = record {
  sv_id = asdu.sv_id;
  appid = frame.appid;
  src = frame.src;
  simulation = frame.simulation;
  smp_cnt = asdu.smp_cnt;
  conf_rev = asdu.conf_rev;
  smp_synch = asdu.smp_synch;
  smp_rate = asdu.smp_rate;
  refr_tm = asdu.refr_tm;
  sample = asdu.sample;
  decoded_9_2le = as_9_2le asdu;
  kind = kind;
}

-- `is_some_and`
abbrev pub is_some_and {ℓ} : {A : Type ℓ} → Option A → (A → Bool) → Bool
is_some_and none test = false
is_some_and (some a) test = test a

-- An ASDU that is not filtered out, of a frame that needs no signature or has a valid one.
unfoldable pub on_sample : Bool → SvFrame → State → Asdu → State × List SvEvent
on_sample sim frame s asdu =
    let (verdict, subs) = sim_gate sim s.simulated_subs asdu.sv_id frame.simulation in
    if not verdict then (record s { simulated_subs = subs }, []) else (
      record { last = insert s.last asdu.sv_id asdu.smp_cnt; simulated_subs = subs },
      event frame asdu (classify (get s.last asdu.sv_id) asdu.smp_cnt) ∷ [],
    )

-- One round of `for asdu in frame.pdu.asdus`, with `fail_status`.
abbrev pub on_status : Option AuthStatus → Bool → SvFrame → State → Asdu → State × List SvEvent
on_status (some status) sim frame s asdu = (s, event frame asdu (auth_failed status) ∷ [])
on_status none sim frame s asdu = on_sample sim frame s asdu

unfoldable pub on_asdu :
    SvFilter → Option AuthStatus → Bool → SvFrame → State → Asdu → State × List SvEvent
on_asdu filter fail_status sim frame s asdu =
    if is_some_and filter.sv_id (λ id. not (bytes_eq id asdu.sv_id))
    then (s, [])
    else on_status fail_status sim frame s asdu

unfoldable pub on_asdus :
    SvFilter → Option AuthStatus → Bool → SvFrame → State → List Asdu → State × List SvEvent
on_asdus filter fail_status sim frame s [] = (s, [])
on_asdus filter fail_status sim frame s (asdu ∷ asdus) =
    let (s₁, events) = on_asdu filter fail_status sim frame s asdu in
    let (s₂, others) = on_asdus filter fail_status sim frame s₁ asdus in (s₂, events ++ others)

unfoldable pub on_frame :
    SvFilter → Option AuthStatus → Bool → State → SvFrame → State × List SvEvent
on_frame filter fail_status sim s frame =
    if is_some_and filter.appid (λ a. not (a == frame.appid))
      || is_some_and filter.dst (λ d. not (bytes_eq d frame.dst))
    then (s, [])
    else on_asdus filter fail_status sim frame s frame.pdu.asdus

-- The status that the loop keeps where it is not `Valid`.
abbrev pub fail_status : AuthStatus → Option AuthStatus
fail_status valid = none
fail_status status = some status

unfoldable pub on_result :
    SvFilter → Bool → State → SvResult (SvFrame × AuthStatus) → State × List SvEvent
on_result filter sim s (ok (frame, status)) = on_frame filter (fail_status status) sim s frame
on_result filter sim s (err _) = (s, [])

unfoldable pub on_decoded : SvFilter → Bool → State → SvResult SvFrame → State × List SvEvent
on_decoded filter sim s (ok frame) = on_frame filter none sim s frame
on_decoded filter sim s (err _) = (s, [])

-- The arm of the link.
unfoldable pub on_receive :
    Std → SvFilter → Option FrameVerifier → Bool → State → Bytes → State × List SvEvent
on_receive std filter none sim s bytes = on_decoded filter sim s (decode std bytes)
on_receive std filter (some verify) sim s bytes =
    on_result filter sim s (decode_verified std bytes verify)
