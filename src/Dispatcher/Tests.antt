-- ===== src/Dispatcher/Tests.antt =====
-- Two consumers that keep the epochs they saw; the one that saw none before does not throw.
use obs_live_delay_plugin.Dispatcher.Fanout.{dispatch_fenced}
use obs_live_delay_plugin.Dispatcher.Epoch.{Rises, EpochCall, epoch_run, epoch_run-Rises}
use obs_live_delay_plugin.Dispatcher.{
  ReleasedPacketConsumer, ReleasedPacketDispatcher, dispatch, PacketDiscontinuity,
  dispatch_discontinuity, ReleasedPacketBatch, observe_epoch,
}
use obs_live_delay_plugin.Base.{
  some, none, [], ◌∷◌, true, ok, List, ℕ, Option, ◌≡◌, String, ◌≤◌, arith,
}

abbrev seen_before : List ℕ → Option String
seen_before [] = none
seen_before (e ∷ es) = some "already used"

abbrev recorder : ReleasedPacketConsumer (List ℕ)
recorder = record {
  consume = λ c batch. (batch.epoch ∷ c, seen_before c);
  discontinuity = λ c event. (c, none);
  stop = λ c. c;
  delivered = λ c epoch ticket. true;
}

abbrev two_consumers : ReleasedPacketDispatcher (List ℕ)
two_consumers = record {
  consumers = (1, 4 ∷ []) ∷ (2, []) ∷ [];
  next_consumer_id = 3;
  publication_epoch = 4;
}

abbrev batch_of : ℕ → ReleasedPacketBatch
batch_of epoch = record { epoch = epoch; packets = []; headers = none; delivery_ticket = 0 }

abbrev restart : PacketDiscontinuity
restart = record { epoch = 5; reason = "encoder restarted" }

fence_raised :
    (j : ℕ) → ((dispatch_discontinuity recorder two_consumers restart).0).publication_epoch ≤ 5
unfolding dispatch_discontinuity observe_epoch
fence_raised j = omega arith

dispatch_fenced_example :
    dispatch recorder
      (dispatch_discontinuity recorder two_consumers restart).0
      (λ j. 5)
      (some (batch_of 4))
    ≡ ((dispatch_discontinuity recorder two_consumers restart).0, ok [])
dispatch_fenced_example =
    dispatch_fenced recorder two_consumers restart (batch_of 4) (λ j. 5) (omega arith) fence_raised

abbrev epoch_calls : List EpochCall
epoch_calls =
    EpochCall.reserves 2
    ∷ EpochCall.advances 5
    ∷ EpochCall.advances 5
    ∷ EpochCall.observes 9
    ∷ EpochCall.reserves 0
    ∷ []

epoch_run-Rises_example :
    Rises 4 (epoch_run two_consumers epoch_calls).1 (epoch_run two_consumers epoch_calls).0
epoch_run-Rises_example = epoch_run-Rises two_consumers epoch_calls
