-- ===== src/MultiTarget/Waits.antt =====
-- src/multi-target-sender.cpp: the wait that `delivery_ready` keeps for a secondary destination.
use obs_live_delay_plugin.RtmpTarget.Credentials.{eq_of_test}
use obs_live_delay_plugin.Multistream.Validation.{or_false, not-true}
use obs_live_delay_plugin.Base.Int.{◌≤ℤ◌, ◌+ℤ◌, pos, ltb_ℤ, ◌-ℤ◌, ◌<ℤ◌, +ℤ_parts, -ℤ_parts}
use obs_live_delay_plugin.Base.{
  some, none, ℕ, Option, not, Bool, ◌≡◌, is_some, if_cases, false, ◌==◌, arith, ◌||◌, true, subst,
  refl, ap, sym, value_or,
}
use obs_live_delay_plugin.MultiTarget.{TargetConsumer, DeliveryWait, polled_wait, restarts, ℤ}

-- A wait for `epoch` without progress that began at `start` or before.
pub record IsWaiting (epoch progress : ℕ) (start now : ℤ) (wait : DeliveryWait) : Type 0 where
  pub since : ℤ
  pub began : wait.since ≡ some since
  pub early : since ≤ℤ start
  pub same_epoch : wait.epoch ≡ epoch
  pub same_progress : wait.progress ≡ progress
  pub polled : wait.polled ≡ now

-- A wait that did not begin in the future.
abbrev pub IsPast : Option ℤ → ℤ → Type 0
IsPast none now = Unit
IsPast (some since) now = since ≤ℤ now

none_starts : ¬ (not (is_some {A = ℤ} none) ≡ false)
none_starts e = cc

all_false :
    {a b c d : Bool}
    → a ≡ false
    → b ≡ false
    → c ≡ false
    → d ≡ false
    → (a || (b || (c || d))) ≡ false
all_false ea eb ec ed = rw ea (rw eb (rw ec ed))

eq_test : {x y : ℕ} → x ≡ y → (x == y) ≡ true
eq_test e = ground arith

near_test : (last now : ℤ) → now ≤ℤ last +ℤ pos 250_000 → ltb_ℤ (pos 250_000) (now -ℤ last) ≡ false
near_test last now h = ground (arith, +ℤ_parts last (pos 250_000), -ℤ_parts now last, h)

module _ {C : Type 0} (ops : TargetConsumer C) (epoch progress : ℕ) where
  continued-IsWaiting :
      (wait : DeliveryWait) (since : Option ℤ) (now : ℤ)
      → wait.since ≡ since
      → IsPast since now
      → restarts ops wait epoch progress now ≡ false
      → IsWaiting epoch progress now now (record wait { polled = now })
  continued-IsWaiting wait none now e past kept = absurd (
      none_starts
        (subst (λ o. not (is_some o) ≡ false) e (or_false (not (is_some wait.since)) _ kept).0))
  continued-IsWaiting wait (some since) now e past kept =
      let (begun, kept1) = or_false (not (is_some wait.since)) _ kept in
      let (same, kept2) = or_false (not (wait.epoch == epoch)) _ kept1 in
      let (still, kept3) = or_false (not (wait.progress == progress)) _ kept2 in
      record {
        since = since;
        began = e;
        early = past;
        same_epoch = eq_of_test wait.epoch epoch (not-true _ same);
        same_progress = eq_of_test wait.progress progress (not-true _ still);
        polled = refl;
      }

  pub first-IsWaiting :
      (wait : DeliveryWait) (now : ℤ)
      → IsPast wait.since now
      → IsWaiting epoch progress now now (polled_wait ops wait epoch progress now)
  unfolding polled_wait
  first-IsWaiting wait now past =
      if_cases (IsWaiting epoch progress now now) (restarts ops wait epoch progress now)
        (λ e. record {
          since = now;
          began = refl;
          early = omega arith;
          same_epoch = refl;
          same_progress = refl;
          polled = refl;
        })
        (λ e. continued-IsWaiting wait wait.since now refl past e)

  restarts-IsWaiting :
      (wait : DeliveryWait) (start last now : ℤ)
      → IsWaiting epoch progress start last wait
      → now ≤ℤ last +ℤ pos 250_000
      → restarts ops wait epoch progress now ≡ false
  restarts-IsWaiting wait start last now w near =
      all_false (ap (λ o. not (is_some o)) w.began) (ap not (eq_test w.same_epoch))
        (ap not (eq_test w.same_progress))
        (subst (λ polled. ltb_ℤ (pos 250_000) (now -ℤ polled) ≡ false) (sym w.polled)
          (near_test last now near))

  pub next-IsWaiting :
      (wait : DeliveryWait) (start last now : ℤ)
      → IsWaiting epoch progress start last wait
      → now ≤ℤ last +ℤ pos 250_000
      → IsWaiting epoch progress start now (polled_wait ops wait epoch progress now)
  unfolding polled_wait
  next-IsWaiting wait start last now w near =
      rw (restarts-IsWaiting wait start last now w near) (record {
        since = w.since;
        began = w.began;
        early = w.early;
        same_epoch = w.same_epoch;
        same_progress = w.same_progress;
        polled = refl;
      })

short_wait :
    (since start now : ℤ)
    → since ≤ℤ start
    → ltb_ℤ (now -ℤ since) (pos 1_000_000) ≡ true
    → now <ℤ start +ℤ pos 1_000_000
short_wait since start now early short =
    ground (arith, -ℤ_parts now since, +ℤ_parts start (pos 1_000_000), early, short)

ends_at : (start last : ℤ) → start +ℤ pos 1_000_000 ≤ℤ last → ¬ (last <ℤ start +ℤ pos 1_000_000)
ends_at start last long short = ground arith

pub ends_late :
    (start last end : ℤ)
    → last ≡ end
    → start +ℤ pos 1_000_000 ≤ℤ end
    → ¬ (last <ℤ start +ℤ pos 1_000_000)
ends_late start last end same long short =
    ends_at start last (subst (λ t. start +ℤ pos 1_000_000 ≤ℤ t) (sym same) long) short

-- A wait of less than a second ends less than a second after its start.
pub waited_time :
    (wait : DeliveryWait) (since start now : ℤ)
    → wait.since ≡ some since
    → since ≤ℤ start
    → ltb_ℤ (now -ℤ value_or wait.since now) (pos 1_000_000) ≡ true
    → now <ℤ start +ℤ pos 1_000_000
waited_time wait since start now e early short =
    short_wait since start now early
      (subst (λ s. ltb_ℤ (now -ℤ value_or s now) (pos 1_000_000) ≡ true) e short)
