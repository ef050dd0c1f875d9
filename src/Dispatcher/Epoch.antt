-- ===== src/Dispatcher/Epoch.antt =====
-- The publication epoch, whatever threads use it in whatever order.
use obs_live_delay_plugin.Dispatcher.{
  ReleasedPacketDispatcher, observe_epoch, reserve_epoch, advance_epoch,
}
use obs_live_delay_plugin.Base.{
  ok, err, true, [], ◌∷◌, ℕ, Result, List, Bool, ◌≤◌, arith, ◌+◌, ◌++◌, ◌<◌,
}

-- The operations on the epoch.
pub data EpochCall : Type 0 where
  observes reserves advances : ℕ → EpochCall

-- The epoch that a call gives to its caller alone.
abbrev pub granted : Result ℕ → List ℕ
granted (ok epoch) = epoch ∷ []
granted (err _) = []

abbrev pub advanced : ℕ → Result Bool → List ℕ
advanced expected (ok true) = (expected + 1) ∷ []
advanced expected _ = []

module _ {ℓ} {C : Type ℓ} where
  unfoldable pub epoch_step :
      ReleasedPacketDispatcher C → EpochCall → ReleasedPacketDispatcher C × List ℕ
  epoch_step d (EpochCall.observes epoch) = (observe_epoch d epoch, [])
  epoch_step d (EpochCall.reserves after) = let (d', r) = reserve_epoch d after in (d', granted r)
  epoch_step d (EpochCall.advances expected) =
      let (d', r) = advance_epoch d expected in (d', advanced expected r)

  -- The epochs that a sequence of calls grants, and where the counter ends.
  unfoldable pub epoch_run : ReleasedPacketDispatcher C → List EpochCall → ℕ × List ℕ
  epoch_run d [] = (d.publication_epoch, [])
  epoch_run d (call ∷ calls) =
      let (d', epochs) = epoch_step d call in
      let (last, more) = epoch_run d' calls in (last, epochs ++ more)

-- Strictly rising numbers above `floor`, that end at `last` at most.
abbrev pub Rises : ℕ → List ℕ → ℕ → Type 0
Rises floor [] last = floor ≤ last
Rises floor (e ∷ es) last = (floor < e) × Rises e es last

Rises-weaken : (a b : ℕ) (es : List ℕ) (last : ℕ) → a ≤ b → Rises b es last → Rises a es last
Rises-weaken a b [] last h r = omega arith
Rises-weaken a b (e ∷ es) last h (below, r) = (omega arith, r)

Rises-append :
    (floor : ℕ) (es : List ℕ) (mid : ℕ) (more : List ℕ) (last : ℕ)
    → Rises floor es mid
    → Rises mid more last
    → Rises floor (es ++ more) last
Rises-append floor [] mid more last r s = Rises-weaken floor mid more last r s
Rises-append floor (e ∷ es) mid more last (h, r) s = (h, Rises-append e es mid more last r s)

module _ {ℓ} {C : Type ℓ} where
  observe_epoch-rises :
      (d : ReleasedPacketDispatcher C) (epoch : ℕ)
      → d.publication_epoch ≤ (observe_epoch d epoch).publication_epoch
  unfolding observe_epoch
  observe_epoch-rises d epoch = ground arith

  reserve_epoch-grants :
      (d : ReleasedPacketDispatcher C) (after : ℕ)
      → Rises d.publication_epoch
          (granted (reserve_epoch d after).1)
          ((reserve_epoch d after).0).publication_epoch
  unfolding reserve_epoch
  reserve_epoch-grants d after = ground arith

  advance_epoch-grants :
      (d : ReleasedPacketDispatcher C) (expected : ℕ)
      → Rises d.publication_epoch
          (advanced expected (advance_epoch d expected).1)
          ((advance_epoch d expected).0).publication_epoch
  unfolding advance_epoch
  advance_epoch-grants d expected = ground arith

  epoch_step-Rises :
      (d : ReleasedPacketDispatcher C) (call : EpochCall)
      → Rises d.publication_epoch (epoch_step d call).1 ((epoch_step d call).0).publication_epoch
  unfolding epoch_step
  epoch_step-Rises d (EpochCall.observes epoch) = observe_epoch-rises d epoch
  epoch_step-Rises d (EpochCall.reserves after) = reserve_epoch-grants d after
  epoch_step-Rises d (EpochCall.advances expected) = advance_epoch-grants d expected

  -- In whatever order threads observe, reserve and advance epochs, the epochs that are granted
  -- rise strictly above the epoch before, so none is granted twice, and the counter ends no lower
  -- than any of them.
  pub epoch_run-Rises :
      (d : ReleasedPacketDispatcher C) (calls : List EpochCall)
      → Rises d.publication_epoch (epoch_run d calls).1 (epoch_run d calls).0
  unfolding epoch_run
  epoch_run-Rises d [] = omega arith
  epoch_run-Rises d (call ∷ calls) =
      let (d', epochs) = epoch_step d call in
      Rises-append d.publication_epoch (epoch_step d call).1
        ((epoch_step d call).0).publication_epoch (epoch_run (epoch_step d call).0 calls).1
        (epoch_run (epoch_step d call).0 calls).0 (epoch_step-Rises d call)
        (epoch_run-Rises (epoch_step d call).0 calls)
