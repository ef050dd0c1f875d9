-- ===== src/RtmpSender/Fence.antt =====
-- A newer epoch keeps the media of older ones from the transport.
use obs_live_delay_plugin.RtmpSender.{
  invalidate_epoch, begin_send, acknowledge_tag, enqueue_epoch, RtmpSender, reset_congestion,
  FlvTag,
}
use obs_live_delay_plugin.Base.{some, none, [], ok, ℕ, List, ◌<◌, ◌≡◌, arith}
use obs_live_delay_plugin.SenderQueue.{discard_pending}

fenced :
    (s : RtmpSender) (epoch : ℕ)
    → s.epoch < epoch
    → ((((invalidate_epoch s epoch).0).queue).tags ≡ [])
      × (((invalidate_epoch s epoch).0).epoch ≡ epoch)
      × (((invalidate_epoch s epoch).0).carried_ticket ≡ 0)
unfolding invalidate_epoch discard_pending reset_congestion
fenced s epoch h = ground arith

stale_send : (s : RtmpSender) (old : ℕ) → old < s.epoch → begin_send s (some old) ≡ none
unfolding begin_send
stale_send s old h = ground arith

stale_tag : (s : RtmpSender) (tag : FlvTag) → tag.epoch < s.epoch → acknowledge_tag s tag ≡ s
unfolding acknowledge_tag
stale_tag s tag h = ground arith

stale_batch :
    (s : RtmpSender) (tags : List FlvTag) (old : ℕ) (headers : List FlvTag)
    → old < s.epoch
    → enqueue_epoch s tags old headers ≡ (s, ok tt)
unfolding enqueue_epoch
stale_batch s tags old headers h = ground arith

-- After a newer epoch is announced to a sender, nothing is left of the older ones: the queue is
-- empty, no ticket is carried, a tag of an older epoch is neither written nor acknowledged, and a
-- batch of an older epoch changes nothing.
pub invalidate_epoch_fences :
    (s : RtmpSender) (epoch : ℕ) (tag : FlvTag) (tags headers : List FlvTag)
    → s.epoch < epoch
    → tag.epoch < epoch
    → let s' = (invalidate_epoch s epoch).0 in
      ((s'.queue).tags ≡ [])
      × (s'.carried_ticket ≡ 0)
      × (begin_send s' (some tag.epoch) ≡ none)
      × (acknowledge_tag s' tag ≡ s')
      × (enqueue_epoch s' tags tag.epoch headers ≡ (s', ok tt))
invalidate_epoch_fences s epoch tag tags headers newer older =
    let (empty, at, carried) = fenced s epoch newer in
    let s' = (invalidate_epoch s epoch).0 in
    let stale : tag.epoch < s'.epoch = omega (arith, at) in
    (
      empty,
      carried,
      stale_send s' tag.epoch stale,
      stale_tag s' tag stale,
      stale_batch s' tags tag.epoch headers stale,
    )
