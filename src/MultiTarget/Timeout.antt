-- ===== src/MultiTarget/Timeout.antt =====
-- src/multi-target-sender.cpp: a secondary destination that delivers nothing holds the others back
-- for one second at most.
use obs_live_delay_plugin.MultiTarget.Waits.{
  IsWaiting, ends_late, IsPast, waited_time, next-IsWaiting, first-IsWaiting,
}
use obs_live_delay_plugin.Base.Int.{◌≤ℤ◌, ◌+ℤ◌, pos, ltb_ℤ, ◌<ℤ◌}
use obs_live_delay_plugin.Base.{
  ◌∷◌, [], ℕ, Bool, List, ◌≡◌, false, if_cases, refl, not, ◌||◌, subst, ap, true, sym,
  is_empty_text, ◌⊎◌, inl, inr, ◌∙◌, if◌then◌else◌, ◌&&◌,
}
use obs_live_delay_plugin.MultiTarget.{
  Worker, TargetConsumer, DeliveryWait, poll, polled_wait, waited, set_wait, wait_of, ℤ, has_failed,
  is_resuming, is_delivered, progress_of, after_poll,
}

module _ {C : Type 0} (ops : TargetConsumer C) (epoch ticket : ℕ) (boundary : Bool) where
  -- The polls of one worker, and whether the last one found it ready.
  unfoldable pub poll_run : Worker C → Bool → List ℤ → Worker C × Bool
  poll_run w ready [] = (w, ready)
  poll_run w ready (now ∷ times) =
      let (w', ready') = poll ops epoch ticket boundary now w in poll_run w' ready' times

  -- A secondary that works, as its status says, but has not delivered what is asked for.
  pub record IsStuck (w : Worker C) : Type 0 where
    pub secondary : w.primary ≡ false
    pub not_failed : has_failed (ops.status w.consumer).sender.state ≡ false
    pub not_resuming : is_resuming ops (ops.status w.consumer) ≡ false
    pub undelivered : is_delivered ops w epoch ticket boundary ≡ false

  -- Polls at most a quarter of a second apart, from `last` to `end`.
  abbrev pub ArePolls : ℤ → List ℤ → ℤ → Type 0
  ArePolls last [] end = last ≡ end
  ArePolls last (now ∷ times) end =
      (last ≤ℤ now) × (now ≤ℤ last +ℤ pos 250_000) × ArePolls now times end

skips : {A : Type 0} (b : Bool) (x y : A) → b ≡ false → (if b then x else y) ≡ y
skips true x y e = cc
skips false x y e = refl

and_or_false : (a : Bool) {b c : Bool} → b ≡ false → c ≡ false → (a && (b || c)) ≡ false
and_or_false true eb ec = rw eb ec
and_or_false false eb ec = refl

and_both_false : (a : Bool) {b : Bool} → b ≡ false → (a && b) ≡ false
and_both_false true e = e
and_both_false false e = refl

-- A secondary that was given up.
abbrev pub IsGivenUp {ℓ} : {C : Type ℓ} → Worker C → Type 0
IsGivenUp w = (w.primary ≡ false) × (is_empty_text w.isolated_error ≡ false)

module _ {C : Type 0} (ops : TargetConsumer C) (epoch ticket : ℕ) (boundary : Bool) where
  abbrev progress : Worker C → ℕ
  progress w = progress_of ops (ops.status w.consumer) boundary epoch

  -- A stuck secondary that has been polled from `start` to `last`.
  abbrev IsHeld : ℤ → ℤ → Worker C → Type 0
  IsHeld start last w =
      IsStuck ops epoch ticket boundary w
      × (is_empty_text w.isolated_error ≡ true)
      × IsWaiting epoch (progress w) start last (wait_of ops w boundary)

  -- What a poll at `now` makes of it.
  abbrev Outcome : ℤ → ℤ → Worker C × Bool → Type 0
  Outcome start now r =
      (IsHeld start now r.0 × (now <ℤ start +ℤ pos 1_000_000)) ⊎ (IsGivenUp r.0 × (r.1 ≡ true))

  poll-stuck :
      (w : Worker C) (now : ℤ)
      → IsStuck ops epoch ticket boundary w
      → is_empty_text w.isolated_error ≡ true
      → poll ops epoch ticket boundary now w
        ≡ after_poll ops w boundary
            (polled_wait ops (wait_of ops w boundary) epoch (progress w) now)
            now
  unfolding poll
  poll-stuck w now stuck working =
      skips _ _ _ (and_or_false (not w.primary) (ap not working) stuck.not_failed)
      ∙ skips _ _ _ (and_both_false (not w.primary) stuck.not_resuming)
      ∙ skips (is_delivered ops w epoch ticket boundary) _ _ stuck.undelivered
      ∙ skips w.primary _ _ stuck.secondary

  poll-given_up :
      (w : Worker C) (now : ℤ) → IsGivenUp w → poll ops epoch ticket boundary now w ≡ (w, true)
  unfolding poll
  poll-given_up w now (secondary, failed) = rw secondary (rw failed refl)

set_wait-IsHeld :
    {C : Type 0} (ops : TargetConsumer C) (epoch ticket : ℕ) (boundary : Bool) (w : Worker C)
    (wait : DeliveryWait) (start now : ℤ)
    → IsStuck ops epoch ticket boundary w
    → is_empty_text w.isolated_error ≡ true
    → IsWaiting epoch (progress ops epoch ticket boundary w) start now wait
    → IsHeld ops epoch ticket boundary start now (set_wait ops w boundary wait)
set_wait-IsHeld ops epoch ticket true w wait start now stuck working waiting = (
  record {
    secondary = stuck.secondary;
    not_failed = stuck.not_failed;
    not_resuming = stuck.not_resuming;
    undelivered = stuck.undelivered;
  },
  working,
  waiting,
)
set_wait-IsHeld ops epoch ticket false w wait start now stuck working waiting = (
  record {
    secondary = stuck.secondary;
    not_failed = stuck.not_failed;
    not_resuming = stuck.not_resuming;
    undelivered = stuck.undelivered;
  },
  working,
  waiting,
)

set_wait-secondary :
    {C : Type 0} (ops : TargetConsumer C) (w : Worker C) (boundary : Bool) (wait : DeliveryWait)
    → (set_wait ops w boundary wait).primary ≡ w.primary
set_wait-secondary ops w true wait = refl
set_wait-secondary ops w false wait = refl

module _ {C : Type 0} (ops : TargetConsumer C) (epoch ticket : ℕ) (boundary : Bool) where
  after_poll-Outcome :
      (w : Worker C) (wait : DeliveryWait) (start now : ℤ)
      → IsStuck ops epoch ticket boundary w
      → is_empty_text w.isolated_error ≡ true
      → IsWaiting epoch (progress ops epoch ticket boundary w) start now wait
      → Outcome ops epoch ticket boundary start now (after_poll ops w boundary wait now)
  after_poll-Outcome w wait start now stuck working waiting =
      if_cases (Outcome ops epoch ticket boundary start now)
        (ltb_ℤ (waited ops wait now) (pos 1_000_000))
        (λ short. inl (
          set_wait-IsHeld ops epoch ticket boundary w wait start now stuck working waiting,
          waited_time wait waiting.since start now waiting.began waiting.early short,
        ))
        (λ long. inr ((set_wait-secondary ops w boundary wait ∙ stuck.secondary, refl), refl))

  IsGivenUp-run :
      (times : List ℤ) (w : Worker C)
      → IsGivenUp w
      → IsGivenUp (poll_run ops epoch ticket boundary w true times).0
        × ((poll_run ops epoch ticket boundary w true times).1 ≡ true)
  unfolding poll_run
  IsGivenUp-run [] w h = (h, refl)
  IsGivenUp-run (now ∷ times) w h =
      subst
        (λ (r : Worker C × Bool).
          IsGivenUp (poll_run ops epoch ticket boundary r.0 r.1 times).0
          × ((poll_run ops epoch ticket boundary r.0 r.1 times).1 ≡ true))
        (sym (poll-given_up ops epoch ticket boundary w now h)) (IsGivenUp-run times w h)

  -- The end of a run, however it went on.
  abbrev pub GaveUp : Worker C × Bool → Type 0
  GaveUp r = IsGivenUp r.0 × (r.1 ≡ true)

  outcome-GaveUp :
      (times : List ℤ) (start now end : ℤ) (r : Worker C × Bool)
      → ArePolls ops epoch ticket boundary now times end
      → start +ℤ pos 1_000_000 ≤ℤ end
      → Outcome ops epoch ticket boundary start now r
      → ((w : Worker C) (ready : Bool)
          → IsHeld ops epoch ticket boundary start now w
          → now <ℤ start +ℤ pos 1_000_000
          → GaveUp (poll_run ops epoch ticket boundary w ready times))
      → GaveUp (poll_run ops epoch ticket boundary r.0 r.1 times)
  outcome-GaveUp times start now end r polls long (inl (held, short)) later =
      later r.0 r.1 held short
  outcome-GaveUp times start now end r polls long (inr (given, ready)) later =
      subst (λ b. GaveUp (poll_run ops epoch ticket boundary r.0 b times)) (sym ready)
        (IsGivenUp-run times r.0 given)

  held-run :
      (times : List ℤ) (start last end : ℤ) (w : Worker C) (ready : Bool)
      → ArePolls ops epoch ticket boundary last times end
      → start +ℤ pos 1_000_000 ≤ℤ end
      → IsHeld ops epoch ticket boundary start last w
      → last <ℤ start +ℤ pos 1_000_000
      → GaveUp (poll_run ops epoch ticket boundary w ready times)
  unfolding poll_run
  held-run [] start last end w ready polls long held short =
      absurd (ends_late start last end polls long short)
  held-run (now ∷ times) start last end w ready (after, near, polls) long (stuck, working, waiting)
        short =
      let next =
        next-IsWaiting ops epoch (progress ops epoch ticket boundary w) (wait_of ops w boundary)
          start last now waiting near in
      outcome-GaveUp times start now end (poll ops epoch ticket boundary now w) polls long
        (subst (Outcome ops epoch ticket boundary start now)
          (sym (poll-stuck ops epoch ticket boundary w now stuck working))
          (after_poll-Outcome w
            (polled_wait ops (wait_of ops w boundary) epoch (progress ops epoch ticket boundary w)
              now)
            start now stuck working next))
        (λ w' ready' held' short'. held-run times start now end w' ready' polls long held' short')

  -- A secondary that works but delivers nothing of what is asked for, polled from `start` on at
  -- least four times a second, has been given up by the end of one second: it is ready from then on,
  -- so that it holds the others back no more.
  pub poll_run-GaveUp :
      (times : List ℤ) (start end : ℤ) (w : Worker C)
      → ArePolls ops epoch ticket boundary start times end
      → start +ℤ pos 1_000_000 ≤ℤ end
      → IsStuck ops epoch ticket boundary w
      → is_empty_text w.isolated_error ≡ true
      → IsPast (wait_of ops w boundary).since start
      → GaveUp (poll_run ops epoch ticket boundary w true (start ∷ times))
  unfolding poll_run
  poll_run-GaveUp times start end w polls long stuck working past =
      let first =
        first-IsWaiting ops epoch (progress ops epoch ticket boundary w) (wait_of ops w boundary)
          start past in
      outcome-GaveUp times start start end (poll ops epoch ticket boundary start w) polls long
        (subst (Outcome ops epoch ticket boundary start start)
          (sym (poll-stuck ops epoch ticket boundary w start stuck working))
          (after_poll-Outcome w
            (polled_wait ops (wait_of ops w boundary) epoch (progress ops epoch ticket boundary w)
              start)
            start start stuck working first))
        (λ w' ready' held' short'. held-run times start start end w' ready' polls long held' short')
