-- ===== src/Goose/Subscriber/Safety.antt =====
-- What the subscriber lets through, and when its tracks expire.
use iec_61850_studio.Base.{
  ℕ, ◌+◌, ◌<◌, List, [], ◌∷◌, some, length, All, Bool, true, false, leb, not, bytes_eq_refl, ◌≡◌,
  refl, arith, Bool-cases, ◌⊎◌, inl, inr,
}
use iec_61850_studio.Base.Result.{ok, err}
use iec_61850_studio.Base.Maps.{contains}
use iec_61850_studio.Base.Words.{Bytes}
use iec_61850_studio.Ber.Std.{Std}
use iec_61850_studio.Goose.Pdu.{GooseResult}
use iec_61850_studio.Goose.Frame.{
  GooseFrame, AuthStatus, FrameVerifier, IsVerified, ethertype_goose, decode_verified,
  decode_verified-IsVerified, unsigned, valid, invalid,
}
use iec_61850_studio.Goose.Subscriber.{
  GooseFilter, Tracks, State, sim_gate, sweep, expired, expired_event, on_result, on_verified,
  on_receive, accepts,
}

-- The sweep keeps exactly the tracks whose deadline is ahead, and reports each of the others once, as
-- expired.
pub sweep_lem :
    (now : ℕ) (tracks : Tracks)
    → All (λ p. now < p.1.deadline) (sweep now tracks).0
      × All (λ e. e.kind ≡ expired) (sweep now tracks).1
      × (length (sweep now tracks).0 + length (sweep now tracks).1 ≡ length tracks)
unfolding sweep
sweep_lem now [] = (tt, tt, omega arith)
sweep_lem now ((k, tr) ∷ tracks) =
    let (kept, events, size) = sweep_lem now tracks in
    elim (Bool-cases (leb tr.deadline now)) [
      | inl e ↦ rw e (kept, (unfold expired_event in refl, events), omega (arith, size))
      | inr e ↦ rw e ((ground arith, kept), events, omega (arith, size))
    ]

unchanged :
    (filter : GooseFilter) (sim : Bool) (now : ℕ) (s : State) (frame : GooseFrame)
    (status : AuthStatus)
    → ((on_verified filter sim now s frame status).0 ≡ s) ⊎ (status ≡ valid)
unfolding on_verified
unchanged filter sim now s frame valid = inr refl
unchanged filter sim now s frame unsigned = elim (Bool-cases (accepts filter frame)) [
  | inl e ↦ inl (rw e refl)
  | inr e ↦ inl (rw e refl)
]
unchanged filter sim now s frame invalid = elim (Bool-cases (accepts filter frame)) [
  | inl e ↦ inl (rw e refl)
  | inr e ↦ inl (rw e refl)
]

-- With security required, nothing that is received changes the state but a frame with a tag, of at least one octet, that the
-- verifier accepted for the data that the frame signs: the tracks and the latch of simulation stay as they were.
pub on_receive_lem :
    (std : Std) (filter : GooseFilter) (verify : FrameVerifier) (sim : Bool) (now : ℕ) (s : State)
    (bytes : Bytes)
    → ((on_receive std filter (some verify) sim now s bytes).0 ≡ s)
      ⊎ IsVerified verify ethertype_goose bytes
unfolding on_receive on_result
on_receive_lem std filter verify sim now s bytes = cases (decode_verified std bytes verify) refl
  where
    cases :
        (r : GooseResult (GooseFrame × AuthStatus))
        → decode_verified std bytes verify ≡ r
        → ((on_result filter sim now s r).0 ≡ s) ⊎ IsVerified verify ethertype_goose bytes
    cases (err x) e = inl refl
    cases (ok (frame, status)) e = elim (unchanged filter sim now s frame status) [
      | inl same ↦ inl same
      | inr v ↦ inr (decode_verified-IsVerified std bytes verify frame (rw v at e))
    ]

-- Simulation. Off, a frame passes exactly where it is real, and every latch is released. On, a simulated
-- frame passes and latches its control block, whose real frames are then held back.
pub sim_gate_lem :
    (subs : List Bytes) (g : Bytes) (simulated : Bool)
    → (sim_gate false subs g simulated ≡ (not simulated, []))
      × ((sim_gate true subs g true).0 ≡ true)
      × ((sim_gate true (sim_gate true subs g true).1 g false).0 ≡ false)
unfolding sim_gate contains
sim_gate_lem subs g simulated = (
  refl,
  refl,
  elim (Bool-cases (contains subs g)) [
    | inl e ↦ rw (e, e) refl
    | inr e ↦ rw (e, bytes_eq_refl g) refl
  ],
)
