-- ===== src/Goose/Publisher/Sequence.antt =====
-- Runs of the publisher over any sequence of events, and the numbers of the frames that it sends.
use iec_61850_studio.Base.{
  ℕ, ◌^◌, ◌≤◌, ◌<◌, List, [], ◌∷◌, Option, none, some, Bool, true, false, ◌&&◌, if◌then◌else◌, ◌≡◌,
  ◌≢◌, ap, arith, Bool-cases, inl, inr,
}
use iec_61850_studio.Ber.Data.{UtcTime, Items}
use iec_61850_studio.Goose.Frame.{GooseFrame}
use iec_61850_studio.Goose.Publisher.{
  GooseConfig, State, next_st_num, changed, retransmitted, on_values, on_timer, sent_frame,
}

-- What the loop of `run` waits for: values at a time, or the timer.
pub data Event : Type 0 where
  values : UtcTime → Items → Event
  timer : Event

module _ (config : GooseConfig) (same : Items → Items → Bool) where
  unfoldable pub step : State → Event → State × Option GooseFrame
  step s (values now v) = on_values config same now v s
  step s timer = on_timer config s

  abbrev pub and_then : Option GooseFrame → List GooseFrame → List GooseFrame
  and_then none frames = frames
  and_then (some f) frames = f ∷ frames

  -- The frames of a run, and the state behind it.
  unfoldable pub publish : State → List Event → List GooseFrame
  publish s [] = []
  publish s (e ∷ es) = and_then (step s e).1 (publish (step s e).0 es)

  unfoldable pub state_after : State → List Event → State
  state_after s [] = s
  state_after s (e ∷ es) = state_after (step s e).0 es

  -- The numbers fit a `u32`, the number of the state is never 0, and the interval lies between the two
  -- of the configuration.
  pub record IsState (s : State) : Type 0 where
    pub st_num_fits : (1 ≤ s.st_num) × (s.st_num < 2 ^ 32)
    pub sq_num_fits : s.sq_num < 2 ^ 32
    pub interval_fits : (config.t_min ≤ s.interval) × (s.interval ≤ config.t_max)

  pub next_st_num_lem :
      (n : ℕ)
      → n < 2 ^ 32
      → (1 ≤ next_st_num n) × (next_st_num n < 2 ^ 32) × (1 ≤ n → next_st_num n ≢ n)
  unfolding next_st_num
  next_st_num_lem n h = ground arith

  changed-IsState :
      (s : State) (now : UtcTime) (v : Items)
      → config.t_min ≤ config.t_max
      → IsState s
      → IsState (changed config now v s)
  unfolding changed
  changed-IsState s now v h i = record {
    st_num_fits = ground (arith, next_st_num_lem s.st_num i.st_num_fits.1, i.st_num_fits);
    sq_num_fits = omega arith;
    interval_fits = omega (arith, h);
  }

  retransmitted-IsState :
      (s : State) → config.t_min ≤ config.t_max → IsState s → IsState (retransmitted config s)
  unfolding retransmitted
  retransmitted-IsState s h i = record {
    st_num_fits = i.st_num_fits;
    sq_num_fits = omega arith;
    interval_fits = omega (arith, h, i.interval_fits);
  }

  -- The four outcomes of a step.
  pub values_unchanged :
      (s : State) (now : UtcTime) (v : Items)
      → (s.started && same v s.last_values) ≡ true
      → step s (values now v) ≡ (s, none)
  unfolding step on_values
  values_unchanged s now v e =
      ap
        (λ (b : Bool).
          if b
          then (s, none)
          else (changed config now v s, some (sent_frame config (changed config now v s))))
        e

  pub values_changed :
      (s : State) (now : UtcTime) (v : Items)
      → (s.started && same v s.last_values) ≡ false
      → step s (values now v)
        ≡ (changed config now v s, some (sent_frame config (changed config now v s)))
  unfolding step on_values
  values_changed s now v e =
      ap
        (λ (b : Bool).
          if b
          then (s, none)
          else (changed config now v s, some (sent_frame config (changed config now v s))))
        e

  pub timer_on :
      (s : State)
      → s.started ≡ true
      → step s timer ≡ (retransmitted config s, some (sent_frame config (retransmitted config s)))
  unfolding step on_timer
  timer_on s e =
      ap
        (λ (b : Bool).
          if b
          then (retransmitted config s, some (sent_frame config (retransmitted config s)))
          else (s, none))
        e

  pub timer_off : (s : State) → s.started ≡ false → step s timer ≡ (s, none)
  unfolding step on_timer
  timer_off s e =
      ap
        (λ (b : Bool).
          if b
          then (retransmitted config s, some (sent_frame config (retransmitted config s)))
          else (s, none))
        e

  step-IsState :
      (s : State) (e : Event) → config.t_min ≤ config.t_max → IsState s → IsState (step s e).0
  step-IsState s (values now v) h i = elim (Bool-cases (s.started && same v s.last_values)) [
    | inl e ↦ rw (values_unchanged s now v e) i
    | inr e ↦ rw (values_changed s now v e) (changed-IsState s now v h i)
  ]
  step-IsState s timer h i = elim (Bool-cases s.started) [
    | inl e ↦ rw (timer_on s e) (retransmitted-IsState s h i)
    | inr e ↦ rw (timer_off s e) i
  ]

  -- Whatever happens, and in whatever order, the state keeps `IsState`, where the least interval is not
  -- above the greatest.
  pub state_after-IsState :
      (s : State) (es : List Event)
      → config.t_min ≤ config.t_max
      → IsState s
      → IsState (state_after s es)
  unfolding state_after
  state_after-IsState s [] h i = i
  state_after-IsState s (e ∷ es) h i = state_after-IsState (step s e).0 es h (step-IsState s e h i)
