-- ===== src/Goose/Delivery.antt =====
-- crates/iec61850-goose/src/publisher.rs and subscriber.rs: a subscriber behind one publisher, with no frame lost and none out
-- of order. The loops of both run: the publisher's step for each of its events, the subscriber's arm of the link
-- for each frame, and its arm of the sweep at any time. The frames
-- are those that `decode` gives back, and no signature is required.
use iec_61850_studio.Base.{
  ℕ, ◌+◌, ◌*◌, ◌^◌, ◌≤◌, ◌<◌, List, [], ◌∷◌, ◌++◌, Option, none, some, Bool, true, false, leb, ◌==◌,
  ◌&&◌, ◌⊎◌, if◌then◌else◌, bytes_eq_refl, ◌≡◌, refl, sym, ap, ◌∙◌, arith, Bool-cases, inl, inr,
  subst,
}
use iec_61850_studio.Base.Maps.{get, insert}
use iec_61850_studio.Base.Words.{Bytes}
use iec_61850_studio.Ber.Data.{UtcTime, Items}
use iec_61850_studio.Goose.Frame.{GooseFrame}
use iec_61850_studio.Goose.Publisher
use iec_61850_studio.Goose.Publisher.{
  GooseConfig, wrapping_succ, next_st_num, ttl_ms, changed, retransmitted, sent_frame,
}
use iec_61850_studio.Goose.Publisher.Sequence.{
  Event, values, timer, step, next_st_num_lem, values_unchanged, values_changed, timer_on,
  timer_off,
}
use iec_61850_studio.Goose.Subscriber.{
  GooseFilter, GooseEvent, GooseEventKind, state_change, retransmission, expired, Track, Tracks,
  State, sim_gate, accepts, classify, track_of, track_and_build, plain_event, expired_event, sweep,
  on_frame,
}

-- What happens to the two: an event of the publisher, whose frame, if there is one, reaches the subscriber at an instant,
-- and the sweep of the subscriber at an instant.
pub data Happening : Type 0 where
  event : Event → ℕ → Happening
  swept : ℕ → Happening

abbrev kinds : List GooseEvent → List GooseEventKind
kinds [] = []
kinds (e ∷ es) = e.kind ∷ kinds es

abbrev kind_of : Option GooseEvent → List GooseEventKind
kind_of none = []
kind_of (some e) = e.kind ∷ []

-- The arm of the link on a frame that was sent.
abbrev hear : GooseFilter → Bool → ℕ → State → Option GooseFrame → State × List GooseEventKind
hear filter sim now s none = (s, [])
hear filter sim now s (some f) =
    ((on_frame filter sim now s f).0, kind_of (on_frame filter sim now s f).1)

abbrev clean : ℕ → State → State × List GooseEventKind
clean now s = (record s { tracks = (sweep now s.tracks).0 }, kinds (sweep now s.tracks).1)

module _ (config : GooseConfig) (same : Items → Items → Bool) (filter : GooseFilter) where
  -- The events that the subscriber delivers, by their kinds.
  unfoldable pub observe : State → Publisher.State → List Happening → List GooseEventKind
  observe s p [] = []
  observe s p (event e now ∷ hs) =
      (hear filter config.simulation now s (step config same p e).1).1
      ++ observe (hear filter config.simulation now s (step config same p e).1).0
          (step config same p e).0 hs
  observe s p (swept now ∷ hs) = (clean now s).1 ++ observe (clean now s).0 p hs

  -- When the time allowed to live of the last frame is up.
  abbrev pub due : ℕ → Publisher.State → ℕ
  due now p = now + ttl_ms p.interval * 1000000

  -- What the events are to mean, with the instant until which the subscriber knows the publisher: new values are a change of
  -- state, the same values are nothing, and the timer, once there are values, is a retransmission where the
  -- publisher is known and a change of state where it is not. A sweep after the instant is an expiry.
  unfoldable pub meant : Option ℕ → Publisher.State → List Happening → List GooseEventKind
  meant known p [] = []
  meant known p (event (values t v) now ∷ hs) =
      let next = meant (some (due now (changed config t v p))) (changed config t v p) hs in
      let unchanged = meant known p hs in
      if p.started && same v p.last_values then unchanged else state_change ∷ next
  meant none p (event timer now ∷ hs) =
      let next = meant (some (due now (retransmitted config p))) (retransmitted config p) hs in
      let idle = meant none p hs in if p.started then state_change ∷ next else idle
  meant (some d) p (event timer now ∷ hs) =
      let next = meant (some (due now (retransmitted config p))) (retransmitted config p) hs in
      let idle = meant (some d) p hs in if p.started then retransmission ∷ next else idle
  meant none p (swept now ∷ hs) = meant none p hs
  meant (some d) p (swept now ∷ hs) =
      let gone = meant none p hs in
      let kept = meant (some d) p hs in if leb d now then expired ∷ gone else kept

  -- The subscriber tracks nothing but the last frame that was sent, until it expires.
  abbrev pub InStep : Option ℕ → Tracks → Publisher.State → Type 0
  InStep none tracks p = tracks ≡ []
  InStep (some d) tracks p =
      (tr : Track) × (tracks ≡ (config.gocb_ref, tr) ∷ [])
      × (tr.deadline ≡ d)
      × (tr.last_st ≡ p.st_num)
      × (tr.last_sq ≡ p.sq_num)
      × (p.started ≡ true)

  -- A frame that passes the filter and the gate.
  heard :
      (now : ℕ) (s : State) (p : Publisher.State) (kind : GooseEventKind)
      → accepts filter (sent_frame config p) ≡ true
      → classify (get s.tracks config.gocb_ref) p.st_num p.sq_num ≡ kind
      → hear filter config.simulation now s (some (sent_frame config p)) ≡ (
        record {
          tracks = insert s.tracks config.gocb_ref (track_of now (sent_frame config p));
          simulated_subs =
              (sim_gate config.simulation s.simulated_subs config.gocb_ref config.simulation).1;
        },
        kind ∷ [],
      )
  unfolding on_frame track_and_build plain_event sent_frame sim_gate
  heard now s p kind passes e = elim (Bool-cases config.simulation) [
    | inl on ↦ rw (passes, on, e) refl
    | inr off ↦ rw (passes, off, e) refl
  ]

  alone :
      (known : Option ℕ) (tracks : Tracks) (p : Publisher.State) (new : Track)
      → InStep known tracks p
      → insert tracks config.gocb_ref new ≡ (config.gocb_ref, new) ∷ []
  unfolding insert
  alone none tracks p new empty = rw empty refl
  alone (some d) tracks p new (old, only, _, _, _, _) =
      rw (only, bytes_eq_refl config.gocb_ref) refl

  -- A frame of the publisher, and what follows it.
  frame_step :
      (known : Option ℕ) (now : ℕ) (s : State) (p p' : Publisher.State) (kind : GooseEventKind)
      (hs : List Happening)
      → InStep known s.tracks p
      → accepts filter (sent_frame config p') ≡ true
      → p'.started ≡ true
      → classify (get s.tracks config.gocb_ref) p'.st_num p'.sq_num ≡ kind
      → ((s' : State)
          → InStep (some (due now p')) s'.tracks p'
          → observe s' p' hs ≡ meant (some (due now p')) p' hs)
      → (hear filter config.simulation now s (some (sent_frame config p'))).1
          ++ observe (hear filter config.simulation now s (some (sent_frame config p'))).0 p' hs
        ≡ kind ∷ meant (some (due now p')) p' hs
  unfolding sent_frame
  frame_step known now s p p' kind hs in_step passes on e rest =
      let tr : Track = track_of now (sent_frame config p') in
      ap (λ (r : State × List GooseEventKind). r.1 ++ observe r.0 p' hs)
        (heard now s p' kind passes e)
      ∙ ap (λ (ks : List GooseEventKind). kind ∷ ks)
          (rest _ (tr, alone known s.tracks p tr in_step, refl, refl, refl, on))

  -- How the subscriber sees a change and a retransmission.
  seen_changed :
      (known : Option ℕ) (tracks : Tracks) (p : Publisher.State) (t : UtcTime) (v : Items)
      → p.st_num < 2 ^ 32
      → 1 ≤ p.st_num
      → InStep known tracks p
      → classify
          (get tracks config.gocb_ref)
          (changed config t v p).st_num
          (changed config t v p).sq_num
        ≡ state_change
  unfolding classify changed get
  seen_changed none tracks p t v h pos empty = rw empty refl
  seen_changed (some d) tracks p t v h pos (tr, only, _, st, _, on) =
      let other : (next_st_num p.st_num == tr.last_st) ≡ false =
        ground (arith, next_st_num_lem config same p.st_num h, st) in
      rw (only, bytes_eq_refl config.gocb_ref, on, other) refl

  seen_again :
      (d : ℕ) (tracks : Tracks) (p : Publisher.State)
      → InStep (some d) tracks p
      → classify (get tracks config.gocb_ref) p.st_num (wrapping_succ p.sq_num) ≡ retransmission
  unfolding classify get
  seen_again d tracks p (tr, only, _, st, sq, on) =
      rw (only, bytes_eq_refl config.gocb_ref, st, sq) (ground arith)

  seen_first :
      (tracks : Tracks) (st sq : ℕ)
      → tracks ≡ []
      → classify (get tracks config.gocb_ref) st sq ≡ state_change
  unfolding classify get
  seen_first tracks st sq empty = rw empty refl

  -- A sweep.
  clean_lem :
      (d now : ℕ) (s : State) (p : Publisher.State)
      → InStep (some d) s.tracks p
      → ((leb d now ≡ true) × ((clean now s).1 ≡ expired ∷ []) × ((clean now s).0.tracks ≡ []))
        ⊎ ((leb d now ≡ false) × ((clean now s).1 ≡ []) × ((clean now s).0.tracks ≡ s.tracks))
  unfolding sweep expired_event
  clean_lem d now s p (tr, only, at_d, _, _, _) = elim (Bool-cases (leb d now)) [
    | inl over ↦
        let over' : leb tr.deadline now ≡ true = ap (λ (n : ℕ). leb n now) at_d ∙ over in
        inl (over, rw (only, over') refl, rw (only, over') refl)
    | inr ahead ↦
        let ahead' : leb tr.deadline now ≡ false = ap (λ (n : ℕ). leb n now) at_d ∙ ahead in
        inr (ahead, rw (only, ahead') refl, rw (only, ahead') refl)
  ]

  clean_empty :
      (now : ℕ) (s : State) → s.tracks ≡ [] → ((clean now s).1 ≡ []) × ((clean now s).0.tracks ≡ [])
  unfolding sweep
  clean_empty now s empty = (rw empty refl, rw empty refl)

  -- Every frame of the publisher passes the filter as one does.
  passes_too :
      (p q : Publisher.State)
      → accepts filter (sent_frame config p) ≡ true
      → accepts filter (sent_frame config q) ≡ true
  unfolding accepts sent_frame
  passes_too p q h = h

  -- What follows a step of the publisher.
  abbrev after :
      ℕ → State → List Happening → Publisher.State × Option GooseFrame → List GooseEventKind
  after now s hs o =
      (hear filter config.simulation now s o.1).1
      ++ observe (hear filter config.simulation now s o.1).0 o.0 hs

  -- The subscriber delivers what is meant, from a state where it tracks at most the last frame that was sent.
  observe-InStep :
      (known : Option ℕ) (s : State) (p : Publisher.State) (hs : List Happening)
      → 1 ≤ p.st_num
      → p.st_num < 2 ^ 32
      → accepts filter (sent_frame config p) ≡ true
      → InStep known s.tracks p
      → observe s p hs ≡ meant known p hs
  unfolding observe meant
  observe-InStep known s p [] pos h passes in_step = refl
  observe-InStep known s p (event (values t v) now ∷ hs) pos h passes in_step =
      elim (Bool-cases (p.started && same v p.last_values)) [
        | inl e ↦
            rw (values_unchanged config same p t v e, e)
              (observe-InStep known s p hs pos h passes in_step)
        | inr e ↦
            let next = changed config t v p in
            let fits : (1 ≤ next.st_num) × (next.st_num < 2 ^ 32) =
              unfold changed in ground (arith, next_st_num_lem config same p.st_num h, pos, h) in
            rw (values_changed config same p t v e, e)
              (frame_step known now s p next state_change hs in_step (passes_too p next passes)
                (unfold changed in refl) (seen_changed known s.tracks p t v h pos in_step)
                (λ s' i.
                  observe-InStep (some (due now next)) s' next hs fits.0 fits.1
                    (passes_too p next passes) i))
      ]
  observe-InStep none s p (event timer now ∷ hs) pos h passes empty =
      let next = retransmitted config p in
      let then' : List GooseEventKind = state_change ∷ meant (some (due now next)) next hs in
      elim (Bool-cases p.started) [
        | inl e ↦
            ap (after now s hs) (timer_on config same p e)
            ∙ frame_step none now s p next state_change hs empty (passes_too p next passes)
                (unfold retransmitted in e) (seen_first s.tracks next.st_num next.sq_num empty)
                (λ s' i.
                  observe-InStep (some (due now next)) s' next hs (unfold retransmitted in pos)
                    (unfold retransmitted in h) (passes_too p next passes) i)
            ∙ ap (λ (b : Bool). if b then then' else meant none p hs) (sym e)
        | inr e ↦
            ap (after now s hs) (timer_off config same p e)
            ∙ observe-InStep none s p hs pos h passes empty
            ∙ ap (λ (b : Bool). if b then then' else meant none p hs) (sym e)
      ]
  observe-InStep (some d) s p (event timer now ∷ hs) pos h passes in_step =
      let next = retransmitted config p in
      let then' : List GooseEventKind = retransmission ∷ meant (some (due now next)) next hs in
      elim (Bool-cases p.started) [
        | inl e ↦
            ap (after now s hs) (timer_on config same p e)
            ∙ frame_step (some d) now s p next retransmission hs in_step (passes_too p next passes)
                (unfold retransmitted in e)
                (unfold retransmitted in seen_again d s.tracks p in_step)
                (λ s' i.
                  observe-InStep (some (due now next)) s' next hs (unfold retransmitted in pos)
                    (unfold retransmitted in h) (passes_too p next passes) i)
            ∙ ap (λ (b : Bool). if b then then' else meant (some d) p hs) (sym e)
        | inr e ↦
            ap (after now s hs) (timer_off config same p e)
            ∙ observe-InStep (some d) s p hs pos h passes in_step
            ∙ ap (λ (b : Bool). if b then then' else meant (some d) p hs) (sym e)
      ]
  observe-InStep none s p (swept now ∷ hs) pos h passes empty =
      let (told, gone) = clean_empty now s empty in
      ap (λ (ks : List GooseEventKind). ks ++ observe (clean now s).0 p hs) told
      ∙ observe-InStep none (clean now s).0 p hs pos h passes gone
  observe-InStep (some d) s p (swept now ∷ hs) pos h passes in_step =
      elim (clean_lem d now s p in_step) [
        | inl (over, told, gone) ↦
            rw (told, over)
              (ap (λ (ks : List GooseEventKind). expired ∷ ks)
                (observe-InStep none (clean now s).0 p hs pos h passes gone))
        | inr (ahead, told, kept) ↦
            rw (told, ahead)
              (observe-InStep (some d) (clean now s).0 p hs pos h passes
                (subst (λ t. InStep (some d) t p) (sym kept) in_step))
      ]

  -- A subscriber that tracks nothing yet, whose filter accepts the publisher's frames and whose mode of simulation is that of
  -- the frames, and that gets them in order and without a loss from a publisher whose state number is a `u32`
  -- other than 0: whatever the publisher's events, and at whatever instants its frames arrive and the sweep runs
  -- between them, the subscriber delivers exactly the events that are meant. New values are a change of state,
  -- the timer is a retransmission while the last frame's time allowed to live is not swept, a sweep at or after its
  -- end is one expiry, and the first frame behind an expiry is a change of state. It never suspects a loss, also
  -- where the numbers wrap around.
  pub observe-meant :
      (subs : List Bytes) (p : Publisher.State) (hs : List Happening)
      → 1 ≤ p.st_num
      → p.st_num < 2 ^ 32
      → accepts filter (sent_frame config p) ≡ true
      → observe (record { tracks = []; simulated_subs = subs }) p hs ≡ meant none p hs
  observe-meant subs p hs pos h passes =
      observe-InStep none (record { tracks = []; simulated_subs = subs }) p hs pos h passes refl
