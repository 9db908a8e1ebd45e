-- ===== src/Sv/Subscriber/Simulation.antt =====
-- crates/iec61850-sv/src/subscriber.rs, `sim_gate`, against what its documentation promises of a history of frames.
use iec_61850_studio.Base.{
  List, [], ◌∷◌, Bool, true, false, not, ◌&&◌, ◌||◌, if◌then◌else◌, bytes_eq, bytes_eq_iff, ◌≡◌,
  refl, sym, ap, ◌∙◌, Bool-cases, inl, inr,
}
use iec_61850_studio.Base.Words.{Bytes}
use iec_61850_studio.Base.Maps.{contains, contains-cons}
use iec_61850_studio.Goose.Subscriber
use iec_61850_studio.Sv.Subscriber.{sim_gate}

-- A frame that reached the gate: the mode at that time, the flow, and the bit of the frame.
pub record Seen : Type 0 where
  pub sim : Bool
  pub sv_id : Bytes
  pub simulated : Bool

-- What the gate latched over a history, the last frame first.
unfoldable pub latches : List Seen → List Bytes
latches [] = []
latches (x ∷ past) = (sim_gate x.sim (latches past) x.sv_id x.simulated).1

-- The reference: the flow had a simulated frame since the mode was last found off.
unfoldable pub had_simulated : List Seen → Bytes → Bool
had_simulated [] sv_id = false
had_simulated (x ∷ past) sv_id =
    let before = had_simulated past sv_id in
    if x.sim then x.simulated && bytes_eq x.sv_id sv_id || before else false

-- The reference verdict: out of the mode the real frames pass, in it the simulated ones and the real
-- ones of flows that had none.
unfoldable pub passes : List Seen → Seen → Bool
passes past x = if x.sim then x.simulated || not (had_simulated past x.sv_id) else not x.simulated

-- A flow that is latched again, or one more.
contains-latch :
    (subs : List Bytes) (k key : Bytes)
    → contains (if contains subs k then subs else k ∷ subs) key
      ≡ bytes_eq k key || contains subs key
contains-latch subs k key = elim (Bool-cases (contains subs k)) [
  | inl e ↦ rw e (absorbed e)
  | inr e ↦ rw e (contains-cons subs k key)
]
  where
    absorbed : contains subs k ≡ true → contains subs key ≡ bytes_eq k key || contains subs key
    absorbed e = elim (Bool-cases (bytes_eq k key)) [
      | inl same ↦ rw same (ap (contains subs) (sym ((bytes_eq_iff k key).0 same)) ∙ e)
      | inr other ↦ rw other refl
    ]

-- The gate on one frame.
gate_latch :
    (sim simulated : Bool) (subs : List Bytes) (k key : Bytes)
    → contains (sim_gate sim subs k simulated).1 key
      ≡ (if sim then simulated && bytes_eq k key || contains subs key else false)
unfolding sim_gate
gate_latch true true subs k key = contains-latch subs k key
gate_latch true false subs k key = refl
gate_latch false simulated subs k key = unfold contains in refl

gate_verdict :
    (sim simulated : Bool) (subs : List Bytes) (k : Bytes)
    → (sim_gate sim subs k simulated).0
      ≡ (if sim then simulated || not (contains subs k) else not simulated)
unfolding sim_gate
gate_verdict true true subs k = refl
gate_verdict true false subs k = refl
gate_verdict false simulated subs k = refl

contains-latches :
    (past : List Seen) (key : Bytes) → contains (latches past) key ≡ had_simulated past key
unfolding latches had_simulated
contains-latches [] key = unfold contains in refl
contains-latches (x ∷ past) key =
    gate_latch x.sim x.simulated (latches past) x.sv_id key
    ∙ ap (λ (b : Bool). if x.sim then x.simulated && bytes_eq x.sv_id key || b else false)
        (contains-latches past key)

-- The verdict on a frame behind any history is the one of the reference: with the mode off exactly the real
-- frames pass; with it on the simulated ones do, and a real one does where its flow had no simulated
-- frame since the mode was last found off. The gate of the GOOSE subscriber gives the same verdict and
-- latches the same.
pub sim_gate-passes :
    (past : List Seen) (x : Seen)
    → ((sim_gate x.sim (latches past) x.sv_id x.simulated).0 ≡ passes past x)
      × (Subscriber.sim_gate x.sim (latches past) x.sv_id x.simulated
          ≡ sim_gate x.sim (latches past) x.sv_id x.simulated)
unfolding sim_gate Subscriber.sim_gate passes
sim_gate-passes past x = (
  gate_verdict x.sim x.simulated (latches past) x.sv_id
      ∙ ap (λ (b : Bool). if x.sim then x.simulated || not b else not x.simulated)
          (contains-latches past x.sv_id),
  refl,
)
