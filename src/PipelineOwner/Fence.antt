-- ===== src/PipelineOwner/Fence.antt =====
-- src/pipeline-owner.cpp: what an accepted action, a refusal and a failure leave behind.
use obs_live_delay_plugin.PipelineOwner.Late.{IsLate, KeepsFloor}
use obs_live_delay_plugin.PipelineOwner.Bounds.{capture_states}
use obs_live_delay_plugin.Dispatcher.{observe_epoch, ReleasedPacketDispatcher, ConsumerFailure}
use obs_live_delay_plugin.PipelineOwner.{
  PipelineOwner, ReleasedPacketConsumer, EncodedPacket, notify_of, TransitionRequest,
}
use obs_live_delay_plugin.PipelineOwner.Calls.{keeps_buffer}
use obs_live_delay_plugin.PipelineOwner.Queues.{stale, admit_packet}
use obs_live_delay_plugin.PipelineOwner.Interleave.{CaptureCall}
use obs_live_delay_plugin.Dispatcher.{observe_epoch}
use obs_live_delay_plugin.Base.{
  some, ◌∷◌, [], ◌≡◌, ◌==◌, false, ℕ, if◌then◌else◌, String, some, List, ok, max, ◌+◌, Result, ◌++◌,
  ◌<◌, Every,
}

module _ {ℓ} {C : Type ℓ} (ops : ReleasedPacketConsumer C) where
  -- A cutoff that succeeds grants an epoch above all earlier ones, which is then the published one.
  abbrev Grants :
      ReleasedPacketDispatcher C
      → ℕ
      → ReleasedPacketDispatcher C × Result (ℕ × List ConsumerFailure)
      → ℕ
      → Type 0
  Grants d epoch cut next =
      (next ≡ max d.publication_epoch epoch + 1) × (cut.0.publication_epoch ≡ next)

  abbrev Claim :
      ReleasedPacketDispatcher C
      → ℕ
      → ℕ
      → String
      → List ConsumerFailure
      → ReleasedPacketDispatcher C × Result ℕ
      → Type 0
  Claim d epoch next reason failures r =
      (notify_of ops reason r).1 ≡ ok (next, failures)
      → Grants d epoch (notify_of ops reason r) next

-- The media captured before an action that discards the buffer: nothing of it is left and its token
-- is refused; and as long as no video above both clocks arrives, whatever else is delivered or taken in
-- between, what the encoders still deliver of that time is dropped.
pub record IsRevoked {ℓ} {C : Type ℓ} (o o' : PipelineOwner C) : Type 0 where
  emptied :
      (o'.capture.packets ≡ []) × (o'.capture.video_ingress ≡ []) × (o'.capture.audio_ingress ≡ [])
  old_token : (o.capture_epoch == o'.capture_epoch) ≡ false
  late :
      (calls : List CaptureCall) (p : EncodedPacket)
      → Every (KeepsFloor o) calls
      → IsLate o p
      → admit_packet (capture_states o'.capture calls) p ≡ stale

-- What an accepted action makes of the owner: it is queued with an epoch above all that were
-- published, which is now the published one, and the captured media stay or are revoked.
pub record IsAdmitted {ℓ} {C : Type ℓ} (o : PipelineOwner C) (r : TransitionRequest)
    (o' : PipelineOwner C) : Type 0 where
  queued : o'.requests ≡ o.requests ++ (record r { epoch = o'.dispatcher.publication_epoch } ∷ [])
  above : max o.dispatcher.publication_epoch o.epoch < o'.dispatcher.publication_epoch
  media :
      if keeps_buffer o.controller r.action
      then (o'.capture ≡ o.capture) × (o'.capture_epoch ≡ o.capture_epoch)
      else IsRevoked o o'
