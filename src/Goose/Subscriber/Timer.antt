-- ===== src/Goose/Subscriber/Timer.antt =====
-- crates/iec61850-goose/src/subscriber.rs: the timer of the sweep, over any run of the loop.
use iec_61850_studio.Base.{
  ℕ, ◌≤◌, ◌<◌, leb, ltb, ◌==◌, List, [], ◌∷◌, Option, none, some, length, All, Bool, true, false,
  ◌≡◌, refl, ap, ◌∙◌, arith, Bool-cases, Option-cases, ◌⊎◌, inl, inr,
}
use iec_61850_studio.Base.Result.{ok, err}
use iec_61850_studio.Base.Maps.{get}
use iec_61850_studio.Base.Words.{Bytes}
use iec_61850_studio.Ber.Std.{Std}
use iec_61850_studio.Goose.Publisher.{wrapping_succ}
use iec_61850_studio.Goose.Frame.{
  GooseFrame, AuthStatus, FrameVerifier, decode, decode_verified, unsigned, valid, invalid,
}
use iec_61850_studio.Goose.Subscriber.{
  GooseFilter, GooseEvent, Track, Tracks, is_auth_failed, classify, track_and_build, plain_event,
  State, sim_gate, earliest, next_deadline, sweep, on_frame, on_verified, on_result, on_receive,
  accepts, Loop, begin, was_tracked, link_arm, sweep_arm,
}
use iec_61850_studio.Goose.Subscriber.Safety.{sweep_lem}

-- One of the tracks expires at the instant.
abbrev ExpiresAt : ℕ → Tracks → Type 0
ExpiresAt d [] = ⊥
ExpiresAt d ((_, track) ∷ tracks) = (track.deadline ≡ d) ⊎ ExpiresAt d tracks

-- The timer is set to the first instant at which a track expires, where there is one.
pub record IsTimed (tracks : Tracks) (sweep_at : ℕ) : Type 0 where
  pub in_time : All (λ p. sweep_at ≤ p.1.deadline) tracks
  pub needed : (tracks ≡ []) ⊎ ExpiresAt sweep_at tracks

earliest-none : (tracks : Tracks) → earliest tracks ≡ none → tracks ≡ []
unfolding earliest
earliest-none [] e = refl
earliest-none ((k, tr) ∷ tracks) e = absurd (ground arith)

earliest-All :
    (tracks : Tracks) (d m : ℕ)
    → earliest tracks ≡ some d
    → m ≤ d
    → All (λ p. m ≤ p.1.deadline) tracks
unfolding earliest
earliest-All [] d m e h = tt
earliest-All ((k, tr) ∷ tracks) d m e h = elim (Option-cases (earliest tracks)) [
  | inl n ↦ (ground arith, rw (earliest-none tracks n) tt)
  | inr (d', e') ↦ (ground arith, earliest-All tracks d' m e' (ground arith))
]

earliest-ExpiresAt : (tracks : Tracks) (d : ℕ) → earliest tracks ≡ some d → ExpiresAt d tracks
unfolding earliest
earliest-ExpiresAt [] d e = absurd (ground arith)
earliest-ExpiresAt ((k, tr) ∷ tracks) d e = elim (Option-cases (earliest tracks)) [
  | inl n ↦ inl (ground (arith, e, n))
  | inr (d', e') ↦ elim (Bool-cases (leb tr.deadline d')) [
    | inl first ↦ inl (ground (arith, e, e', first))
    | inr later ↦
        let same : d' ≡ d = ground (arith, e, e', later) in
        inr (earliest-ExpiresAt tracks d (e' ∙ ap some same))
  ]
]

next_deadline-IsTimed : (now : ℕ) (tracks : Tracks) → IsTimed tracks (next_deadline now tracks)
unfolding next_deadline
next_deadline-IsTimed now tracks = elim (Option-cases (earliest tracks)) [
  | inl n ↦ rw (earliest-none tracks n) (record { in_time = tt; needed = inl refl })
  | inr (d, e) ↦ rw e (record {
    in_time = earliest-All tracks d d e (omega arith);
    needed = inr (earliest-ExpiresAt tracks d e);
  })
]

classify-is_auth_failed :
    (prev : Option Track) (st sq : ℕ) → is_auth_failed (classify prev st sq) ≡ false
unfolding classify
classify-is_auth_failed none st sq = refl
classify-is_auth_failed (some prev) st sq = elim (Bool-cases (st == prev.last_st)) [
  | inl same ↦ elim (Bool-cases (sq == wrapping_succ prev.last_sq)) [
    | inl next ↦ rw (same, next) refl
    | inr other ↦ elim (Bool-cases (ltb (wrapping_succ prev.last_sq) sq)) [
      | inl ahead ↦ rw (same, other, ahead) refl
      | inr behind ↦ rw (same, other, behind) refl
    ]
  ]
  | inr differs ↦ rw differs refl
]

-- The arm of the link comes to its end, or the tracks stay as they were.
abbrev TracksOrKeeps : State → State × Option GooseEvent → Type 0
TracksOrKeeps s r = (was_tracked r.1 ≡ true) ⊎ (r.0.tracks ≡ s.tracks)

on_frame-TracksOrKeeps :
    (filter : GooseFilter) (sim : Bool) (now : ℕ) (s : State) (frame : GooseFrame)
    → TracksOrKeeps s (on_frame filter sim now s frame)
unfolding on_frame track_and_build plain_event
on_frame-TracksOrKeeps filter sim now s frame = elim (Bool-cases (accepts filter frame)) [
  | inr e ↦ inr (rw e refl)
  | inl e ↦
      elim (Bool-cases (sim_gate sim s.simulated_subs frame.pdu.gocb_ref frame.simulation).0) [
        | inr f ↦ inr (rw (e, f) refl)
        | inl f ↦ inl (
            rw
              (
                e,
                f,
                classify-is_auth_failed (get s.tracks frame.pdu.gocb_ref) frame.pdu.st_num
                    frame.pdu.sq_num,
              )
              refl)
      ]
]

on_verified-TracksOrKeeps :
    (filter : GooseFilter) (sim : Bool) (now : ℕ) (s : State) (frame : GooseFrame)
    (status : AuthStatus)
    → TracksOrKeeps s (on_verified filter sim now s frame status)
unfolding on_verified
on_verified-TracksOrKeeps filter sim now s frame valid =
    on_frame-TracksOrKeeps filter sim now s frame
on_verified-TracksOrKeeps filter sim now s frame unsigned =
    elim (Bool-cases (accepts filter frame)) [ inl e ↦ inr (rw e refl) | inr e ↦ inr (rw e refl) ]
on_verified-TracksOrKeeps filter sim now s frame invalid =
    elim (Bool-cases (accepts filter frame)) [ inl e ↦ inr (rw e refl) | inr e ↦ inr (rw e refl) ]

on_receive-TracksOrKeeps :
    (std : Std) (filter : GooseFilter) (security : Option FrameVerifier) (sim : Bool) (now : ℕ)
    (s : State) (bytes : Bytes)
    → TracksOrKeeps s (on_receive std filter security sim now s bytes)
unfolding on_receive on_result
on_receive-TracksOrKeeps std filter none sim now s bytes =
    elim (decode std bytes)
      as (λ r.
        TracksOrKeeps s
          (elim r [ ok frame ↦ on_frame filter sim now s frame | err _ ↦ (s, none) ])) [
            | ok frame ↦ on_frame-TracksOrKeeps filter sim now s frame
            | err e ↦ inr refl
          ]
on_receive-TracksOrKeeps std filter (some verify) sim now s bytes =
    elim (decode_verified std bytes verify)
      as (λ r. TracksOrKeeps s (on_result filter sim now s r)) [
        | ok (frame, status) ↦ on_verified-TracksOrKeeps filter sim now s frame status
        | err e ↦ inr refl
      ]

-- A sweep at or after the instant expires at least one track.
sweep-ExpiresAt :
    (tracks : Tracks) (d now : ℕ) → ExpiresAt d tracks → d ≤ now → 1 ≤ length (sweep now tracks).1
unfolding sweep
sweep-ExpiresAt [] d now due h = absurd due
sweep-ExpiresAt ((k, track) ∷ tracks) d now due h = elim (Bool-cases (leb track.deadline now)) [
  | inl over ↦ rw over (omega arith)
  | inr ahead ↦ rw ahead (elim due [
    | inl same ↦ absurd (ground (arith, same, ahead, h))
    | inr later ↦ sweep-ExpiresAt tracks d now later h
  ])
]

ExpiresAt-ahead :
    (tracks : Tracks) (d now : ℕ)
    → ExpiresAt d tracks
    → All (λ p. now < p.1.deadline) tracks
    → now < d
ExpiresAt-ahead [] d now due ahead = absurd due
ExpiresAt-ahead ((k, track) ∷ tracks) d now (inl same) (ahead, _) = omega (arith, same, ahead)
ExpiresAt-ahead ((k, track) ∷ tracks) d now (inr later) (_, ahead) =
    ExpiresAt-ahead tracks d now later ahead

next_deadline-ahead :
    (now : ℕ) (tracks : Tracks)
    → All (λ p. now < p.1.deadline) tracks
    → now < next_deadline now tracks
unfolding next_deadline
next_deadline-ahead now tracks ahead = elim (Option-cases (earliest tracks)) [
  | inl n ↦ rw n (omega arith)
  | inr (d, e) ↦ rw e (ExpiresAt-ahead tracks d now (earliest-ExpiresAt tracks d e) ahead)
]

-- What happens to the loop: octets from the link, with the mode of simulation of that moment, or the timer.
pub data Happening : Type 0 where
  received : Bool → ℕ → Bytes → Happening
  fired : ℕ → Happening

module _ (std : Std) (filter : GooseFilter) (security : Option FrameVerifier) where
  abbrev pub loop_after : Loop → List Happening → Loop
  loop_after l [] = l
  loop_after l (received sim now bytes ∷ hs) =
      loop_after (link_arm std filter security sim now l bytes).0 hs
  loop_after l (fired now ∷ hs) = loop_after (sweep_arm now l).0 hs

  link_arm-IsTimed :
      (sim : Bool) (now : ℕ) (l : Loop) (bytes : Bytes)
      → IsTimed l.state.tracks l.sweep_at
      → IsTimed
          (link_arm std filter security sim now l bytes).0.state.tracks
          (link_arm std filter security sim now l bytes).0.sweep_at
  unfolding link_arm
  link_arm-IsTimed sim now l bytes timed =
      let r = on_receive std filter security sim now l.state bytes in
      elim (Bool-cases (was_tracked r.1)) [
        | inl tracked ↦ rw tracked (next_deadline-IsTimed now r.0.tracks)
        | inr dropped ↦ elim (on_receive-TracksOrKeeps std filter security sim now l.state bytes) [
          | inl tracked ↦ cc
          | inr kept ↦ rw (dropped, kept) timed
        ]
      ]

  loop_after-IsTimed :
      (l : Loop) (hs : List Happening)
      → IsTimed l.state.tracks l.sweep_at
      → IsTimed (loop_after l hs).state.tracks (loop_after l hs).sweep_at
  loop_after-IsTimed l [] timed = timed
  loop_after-IsTimed l (received sim now bytes ∷ hs) timed =
      loop_after-IsTimed (link_arm std filter security sim now l bytes).0 hs
        (link_arm-IsTimed sim now l bytes timed)
  loop_after-IsTimed l (fired now ∷ hs) timed =
      loop_after-IsTimed (sweep_arm now l).0 hs
        (unfold sweep_arm in next_deadline-IsTimed now (sweep now l.state.tracks).0)

  -- Behind any run of the loop since `start`, with octets from the link and with sweeps at any instants: the timer is set no
  -- later than any track expires, and when it fires, at or after the instant it is set to, at least one track
  -- expires where there are tracks, and the timer is set to an instant ahead.
  pub loop_after-sweep_arm :
      (start now : ℕ) (hs : List Happening)
      → (loop_after (begin start) hs).sweep_at ≤ now
      → All
          (λ p. (loop_after (begin start) hs).sweep_at ≤ p.1.deadline)
          (loop_after (begin start) hs).state.tracks
        × (((loop_after (begin start) hs).state.tracks ≡ [])
            ⊎ (1 ≤ length (sweep_arm now (loop_after (begin start) hs)).1))
        × (now < (sweep_arm now (loop_after (begin start) hs)).0.sweep_at)
  unfolding sweep_arm
  loop_after-sweep_arm start now hs reached =
      let l = loop_after (begin start) hs in
      let nothing : (begin start).state.tracks ≡ [] = unfold begin in refl in
      let timed =
        loop_after-IsTimed (begin start) hs
          (unfold begin in record { in_time = tt; needed = inl refl }) in
      let ahead = next_deadline-ahead now _ (sweep_lem now l.state.tracks).0 in
      (
        timed.in_time,
        elim timed.needed [
          | inl empty ↦ inl empty
          | inr due ↦ inr (sweep-ExpiresAt l.state.tracks l.sweep_at now due reached)
        ],
        ahead,
      )
