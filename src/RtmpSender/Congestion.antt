-- ===== src/RtmpSender/Congestion.antt =====
-- Congestion relief drops video, and moves every delivery ticket on to a tag that is kept.
use obs_live_delay_plugin.SenderQueue.Fifo.{push_sized_fifo}
use obs_live_delay_plugin.SenderQueue.Tickets.{max_ticket, drop_video_keeps, max_ticket-append}
use obs_live_delay_plugin.RtmpSender.{
  RtmpSender, shed_queued_video, thin_step, thin_loop, thin_incoming_video, push_thinned,
  push_or_shed, enqueue_running, stamp, admit, enqueue_admitted, enqueue_epoch, Thinning, Enqueued,
  FlvTag, is_congested, SenderState, thin_start,
}
use obs_live_delay_plugin.Base.{
  [], ◌∷◌, true, false, ok, ℕ, max, ◌≡◌, List, Bool, if◌then◌else◌, arith, if_cases, ◌++◌, ap, refl,
  ◌&&◌, not, subst, ◌∙◌, ◌==◌, sym,
}
use obs_live_delay_plugin.SenderQueue.{
  try_push, is_media_video, BoundedSenderQueue, push_sized, added_bytes,
}

-- The highest ticket that a sender still holds, in its queue or to be carried.
abbrev pub held_ticket : RtmpSender → ℕ
held_ticket s = max (max_ticket s.queue.tags) s.carried_ticket

shed_queued_video-held_ticket : (s : RtmpSender) → held_ticket (shed_queued_video s) ≡ held_ticket s
unfolding shed_queued_video
shed_queued_video-held_ticket s =
    let (_, _, ticket) = drop_video_keeps s.queue in omega (arith, ticket)

thin_step-ticket :
    (t : Thinning) (tag : FlvTag)
    → max (max_ticket (thin_step t tag).thinned) (thin_step t tag).ticket
      ≡ max (max (max_ticket t.thinned) t.ticket) tag.delivery_ticket
unfolding thin_step
thin_step-ticket t tag =
    if_cases
      (λ (r : Thinning).
        max (max_ticket r.thinned) r.ticket
        ≡ max (max (max_ticket t.thinned) t.ticket) tag.delivery_ticket)
      (t.skips && is_media_video tag && not tag.keyframe) (λ e. omega arith)
      (λ e. omega (
        arith,
        max_ticket-append t.thinned
            (record tag { delivery_ticket = max tag.delivery_ticket t.ticket } ∷ []),
      ))

thin_loop-ticket :
    (tags : List FlvTag) (t : Thinning)
    → max (max_ticket (thin_loop t tags).thinned) (thin_loop t tags).ticket
      ≡ max (max (max_ticket t.thinned) t.ticket) (max_ticket tags)
unfolding thin_loop
thin_loop-ticket [] t = omega arith
thin_loop-ticket (tag ∷ tags) t =
    omega (arith, thin_step-ticket t tag, thin_loop-ticket tags (thin_step t tag))

-- What thinning a batch does: the queue stays, and no ticket of the batch is lost.
abbrev Thinned : RtmpSender → List FlvTag → RtmpSender × List FlvTag → Type 0
Thinned s tags r =
    ((r.0).queue ≡ s.queue)
    × (max (max_ticket r.1) (r.0).carried_ticket ≡ max s.carried_ticket (max_ticket tags))

thin_incoming_video-Thinned :
    (s : RtmpSender) (tags : List FlvTag) → Thinned s tags (thin_incoming_video s tags)
unfolding thin_incoming_video
thin_incoming_video-Thinned s tags =
    if_cases (Thinned s tags) (not s.drop_video_until_keyframe && s.carried_ticket == 0)
      (λ e. (refl, omega arith)) (λ e. (refl, omega (arith, thin_loop-ticket tags (thin_start s))))

-- The result of an accepted push holds the tickets of the sender and of the batch.
abbrev Holds : ℕ → Enqueued → Type 0
Holds ticket r = r.1 ≡ ok tt → held_ticket r.0 ≡ ticket

pushed_tags :
    (q : BoundedSenderQueue) (tags : List FlvTag)
    → (try_push q tags).1 ≡ true
    → ((try_push q tags).0).tags ≡ q.tags ++ tags
unfolding try_push
pushed_tags q tags e =
    subst
      (λ (b : Bool).
        ((push_sized q tags (added_bytes 0 tags)).0).tags ≡ q.tags ++ (if b then tags else []))
      e (push_sized_fifo q tags (added_bytes 0 tags))

pushed_holds :
    (s : RtmpSender) (tags : List FlvTag)
    → (try_push s.queue tags).1 ≡ true
    → held_ticket (record s { queue = (try_push s.queue tags).0 })
      ≡ max (held_ticket s) (max_ticket tags)
pushed_holds s tags e =
    rw (pushed_tags s.queue tags e, max_ticket-append s.queue.tags tags) (omega arith)

push_thinned-Holds :
    (s : RtmpSender) (tags : List FlvTag)
    → Holds (max (held_ticket s) (max_ticket tags)) (push_thinned (s, tags))
unfolding push_thinned
push_thinned-Holds s tags =
    if_cases (Holds (max (held_ticket s) (max_ticket tags))) (try_push s.queue tags).1
      (λ e o. pushed_holds s tags e) (λ e o. absurd (grind arith))

push_thinned-Thinned :
    (s : RtmpSender) (tags : List FlvTag) (r : RtmpSender × List FlvTag)
    → Thinned s tags r
    → Holds (max (held_ticket s) (max_ticket tags)) (push_thinned r)
push_thinned-Thinned s tags (s', kept) (queue, ticket) = λ o.
    (let h = push_thinned-Holds s' kept o in
      let q : max_ticket s'.queue.tags ≡ max_ticket s.queue.tags =
        ap (λ (x : BoundedSenderQueue). max_ticket x.tags) queue in
      omega (arith, h, ticket, q))

push_or_shed-Holds :
    (s : RtmpSender) (tags : List FlvTag)
    → Holds (max (held_ticket s) (max_ticket tags)) (push_or_shed (s, tags))
unfolding push_or_shed
push_or_shed-Holds s tags =
    if_cases (Holds (max (held_ticket s) (max_ticket tags))) (try_push s.queue tags).1
      (λ e o. pushed_holds s tags e)
      (λ e o.
        push_thinned-Thinned (shed_queued_video s) tags
          (thin_incoming_video (shed_queued_video s) tags)
          (thin_incoming_video-Thinned (shed_queued_video s) tags) o
        ∙ ap (λ n. max n (max_ticket tags)) (shed_queued_video-held_ticket s))

push_or_shed-Thinned :
    (s : RtmpSender) (tags : List FlvTag) (r : RtmpSender × List FlvTag)
    → Thinned s tags r
    → Holds (max (held_ticket s) (max_ticket tags)) (push_or_shed r)
push_or_shed-Thinned s tags (s', kept) (queue, ticket) = λ o.
    (let h = push_or_shed-Holds s' kept o in
      let q : max_ticket s'.queue.tags ≡ max_ticket s.queue.tags =
        ap (λ (x : BoundedSenderQueue). max_ticket x.tags) queue in
      omega (arith, h, ticket, q))

relieved :
    (s : RtmpSender) (b : Bool) → held_ticket (if b then shed_queued_video s else s) ≡ held_ticket s
relieved s true = shed_queued_video-held_ticket s
relieved s false = refl

enqueue_running-Holds :
    (s : RtmpSender) (tags : List FlvTag)
    → Holds (max (held_ticket s) (max_ticket tags)) (enqueue_running s tags)
unfolding enqueue_running
enqueue_running-Holds s tags = λ o.
    push_or_shed-Thinned (if is_congested s tags then shed_queued_video s else s) tags _
      (thin_incoming_video-Thinned (if is_congested s tags then shed_queued_video s else s) tags) o
    ∙ ap (λ n. max n (max_ticket tags)) (relieved s (is_congested s tags))

stamp-max_ticket :
    (epoch : ℕ) (tags : List FlvTag) → max_ticket (stamp epoch tags) ≡ max_ticket tags
unfolding stamp
stamp-max_ticket epoch [] = refl
stamp-max_ticket epoch (tag ∷ tags) = omega (arith, stamp-max_ticket epoch tags)

admitted :
    (s : RtmpSender) (tags headers : List FlvTag)
    → (held_ticket (admit s tags s.epoch headers) ≡ held_ticket s)
      × ((admit s tags s.epoch headers).state ≡ s.state)
unfolding admit
admitted s tags headers = ground arith

running_enqueues :
    (s : RtmpSender) (tags : List FlvTag)
    → s.state ≡ SenderState.running
    → enqueue_admitted s tags ≡ enqueue_running s tags
unfolding enqueue_admitted
running_enqueues s tags e = ground arith

current_enqueues :
    (s : RtmpSender) (tags headers : List FlvTag)
    → enqueue_epoch s tags s.epoch headers
      ≡ enqueue_admitted (admit s tags s.epoch headers) (stamp s.epoch tags)
unfolding enqueue_epoch
current_enqueues s tags headers = ground arith

-- A batch of the current epoch that a running sender accepts adds its tickets to those that the
-- sender holds, and none is lost, whatever video congestion drops from the queue or the batch: the
-- highest ticket in the queue or carried is that of the sender and of the batch before.
pub enqueue_epoch-held_ticket :
    (s : RtmpSender) (tags headers : List FlvTag)
    → s.state ≡ SenderState.running
    → (enqueue_epoch s tags s.epoch headers).1 ≡ ok tt
    → held_ticket (enqueue_epoch s tags s.epoch headers).0 ≡ max (held_ticket s) (max_ticket tags)
enqueue_epoch-held_ticket s tags headers running accepted =
    let (held, state) = admitted s tags headers in
    let e =
      current_enqueues s tags headers
      ∙ running_enqueues (admit s tags s.epoch headers) (stamp s.epoch tags) (state ∙ running) in
    let h =
      enqueue_running-Holds (admit s tags s.epoch headers) (stamp s.epoch tags)
        (sym (ap (λ r. r.1) e) ∙ accepted) in
    ap (λ r. held_ticket r.0) e
    ∙ h
    ∙ ap (λ n. max n (max_ticket (stamp s.epoch tags))) held
    ∙ ap (max (held_ticket s)) (stamp-max_ticket s.epoch tags)
