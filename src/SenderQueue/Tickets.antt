-- ===== src/SenderQueue/Tickets.antt =====
-- What `drop_video` keeps, and the delivery tickets that it moves.
use obs_live_delay_plugin.SenderQueue.Capacity.{wire_bytes-append, wire_bytes}
use obs_live_delay_plugin.SenderQueue.{
  Dropping, drop_loop, is_media_video, drop_step, drop_tag, keep_tag, drop_video, with_carried,
  BoundedSenderQueue, drop_start,
}
use obs_live_delay_plugin.Flv.Tag.{FlvTag, FlvTagType, is_video_tag, second_is_zero}
use obs_live_delay_plugin.Base.{
  List, ℕ, ◌++◌, ◌∷◌, ◌≡◌, max, [], ap, length, true, false, sym, arith, refl, ◌+◌, append-nil, ◌∙◌,
  ◌≤◌, append_assoc, ◌<◌, length-append, ◌^◌, if◌then◌else◌, if_cases, Bool, suc, zero, ◌&&◌, not,
}

abbrev pub max_ticket : List FlvTag → ℕ
max_ticket [] = 0
max_ticket (tag ∷ tags) = max tag.delivery_ticket (max_ticket tags)

pub max_ticket-append :
    (xs ys : List FlvTag) → max_ticket (xs ++ ys) ≡ max (max_ticket xs) (max_ticket ys)
max_ticket-append [] ys = omega arith
max_ticket-append (x ∷ xs) ys = omega (arith, max_ticket-append xs ys)

-- A tag without its ticket.
abbrev pub media : FlvTag → FlvTag
media tag = record tag { delivery_ticket = 0 }

-- A tag of media video by its type and payload: video that does not have AVCPacketType 0, which says
-- that a codec header follows, as its second byte.
unfoldable pub carries_video : FlvTagType → List ℕ → Bool
carries_video FlvTagType.audio payload = false
carries_video FlvTagType.script_data payload = false
carries_video FlvTagType.video (kind ∷ zero ∷ rest) = false
carries_video FlvTagType.video (kind ∷ (suc packet_type) ∷ rest) = true
carries_video FlvTagType.video (kind ∷ []) = true
carries_video FlvTagType.video [] = true

carries_video-is_media_video :
    (type : FlvTagType) (payload : List ℕ)
    → carries_video type payload ≡ is_video_tag type && not (second_is_zero payload)
unfolding carries_video
carries_video-is_media_video FlvTagType.audio payload = refl
carries_video-is_media_video FlvTagType.script_data payload = refl
carries_video-is_media_video FlvTagType.video [] = refl
carries_video-is_media_video FlvTagType.video (kind ∷ []) = refl
carries_video-is_media_video FlvTagType.video (kind ∷ zero ∷ rest) = refl
carries_video-is_media_video FlvTagType.video (kind ∷ (suc packet_type) ∷ rest) = ground arith

is_media_video-test :
    (tag : FlvTag) (test : Bool)
    → is_media_video tag ≡ test
    → carries_video tag.type tag.payload ≡ test
is_media_video-test tag test e = carries_video-is_media_video tag.type tag.payload ∙ e

-- The tags that are not media video, in their order, without their tickets.
unfoldable pub rest_of : List FlvTag → List FlvTag
rest_of [] = []
rest_of (tag ∷ tags) =
    if carries_video tag.type tag.payload then rest_of tags else media tag ∷ rest_of tags

unfoldable pub media_of : List FlvTag → List FlvTag
media_of [] = []
media_of (tag ∷ tags) = media tag ∷ media_of tags

media_of-append : (xs ys : List FlvTag) → media_of (xs ++ ys) ≡ media_of xs ++ media_of ys
unfolding media_of
media_of-append [] ys = refl
media_of-append (x ∷ xs) ys = ap (λ l. media x ∷ l) (media_of-append xs ys)

-- What a run of the loop over `tags` does to its variables.
pub record Drops (d : Dropping) (tags : List FlvTag) (d' : Dropping) : Type 0 where
  pub kept_media : media_of d'.kept ≡ media_of d.kept ++ rest_of tags
  pub count : length d'.kept + d'.dropped ≡ length d.kept + d.dropped + length tags
  ticket :
      max (max_ticket d'.kept) d'.carried_ticket
      ≡ max (max (max_ticket d.kept) d.carried_ticket) (max_ticket tags)
  pub bytes :
      wire_bytes d.kept + wire_bytes tags ≤ d.left_bytes
      → d.left_bytes < 2 ^ 64
      → d'.left_bytes + wire_bytes d.kept + wire_bytes tags ≡ d.left_bytes + wire_bytes d'.kept
  pub less : wire_bytes d'.kept ≤ wire_bytes d.kept + wire_bytes tags

Drops-video :
    (d : Dropping) (tag : FlvTag) (tags : List FlvTag) (d' : Dropping)
    → is_media_video tag ≡ true
    → Drops (drop_tag d tag) tags d'
    → Drops d (tag ∷ tags) d'
unfolding rest_of
Drops-video d tag tags d' e r = record {
  kept_media = rw (is_media_video-test tag true e) r.kept_media;
  count = omega (arith, r.count);
  ticket = omega (arith, r.ticket);
  bytes = λ h k. (let b = r.bytes (omega arith) (omega arith) in omega arith);
  less = omega (arith, r.less);
}

Drops-kept :
    (d : Dropping) (tag : FlvTag) (tags : List FlvTag) (d' : Dropping)
    → is_media_video tag ≡ false
    → Drops (keep_tag d tag) tags d'
    → Drops d (tag ∷ tags) d'
unfolding rest_of media_of
Drops-kept d tag tags d' e r =
    let k = with_carried d tag in
    let w = wire_bytes-append d.kept (k ∷ []) in
    record {
      kept_media = rw (is_media_video-test tag false e) (
          r.kept_media
          ∙ ap (λ l. l ++ rest_of tags) (media_of-append d.kept (k ∷ []))
          ∙ append_assoc (media_of d.kept) (media tag ∷ []) (rest_of tags));
      count = omega (arith, r.count, length-append d.kept (k ∷ []));
      ticket = omega (arith, r.ticket, max_ticket-append d.kept (k ∷ []));
      bytes = λ h l. (let b = r.bytes (omega arith) l in omega arith);
      less = omega (arith, r.less, w);
    }

pub drop_loop-Drops : (d : Dropping) (tags : List FlvTag) → Drops d tags (drop_loop d tags)
unfolding drop_loop drop_step rest_of
drop_loop-Drops d [] = record {
  kept_media = sym (append-nil (media_of d.kept));
  count = omega arith;
  ticket = omega arith;
  bytes = λ h k. omega arith;
  less = omega arith;
}
drop_loop-Drops d (tag ∷ tags) =
    if_cases (λ (s : Dropping). Drops d (tag ∷ tags) (drop_loop s tags)) (is_media_video tag)
      (λ e. Drops-video d tag tags _ e (drop_loop-Drops (drop_tag d tag) tags))
      (λ e. Drops-kept d tag tags _ e (drop_loop-Drops (keep_tag d tag) tags))

-- `drop_video` keeps exactly the tags that are not media video, codec headers included, in order;
-- with those that it counts as removed they are all the tags; and the highest ticket is still in the
-- queue or is handed to the caller.
pub drop_video_keeps :
    (q : BoundedSenderQueue)
    → (media_of ((drop_video q).0).tags ≡ rest_of q.tags)
      × (length ((drop_video q).0).tags + ((drop_video q).1).0 ≡ length q.tags)
      × (max (max_ticket ((drop_video q).0).tags) ((drop_video q).1).1 ≡ max_ticket q.tags)
unfolding drop_video media_of
drop_video_keeps q =
    let r = drop_loop-Drops (drop_start q) q.tags in
    (r.kept_media, omega (arith, r.count), omega (arith, r.ticket))

drop_loop-append :
    (d : Dropping) (xs ys : List FlvTag) → drop_loop d (xs ++ ys) ≡ drop_loop (drop_loop d xs) ys
unfolding drop_loop
drop_loop-append d [] ys = refl
drop_loop-append d (x ∷ xs) ys = drop_loop-append (drop_step d x) xs ys

drop_step_grows :
    (d : Dropping) (tag : FlvTag) → (more : List FlvTag) × ((drop_step d tag).kept ≡ d.kept ++ more)
unfolding drop_step
drop_step_grows d tag =
    if_cases (λ (s : Dropping). (more : List FlvTag) × (s.kept ≡ d.kept ++ more))
      (is_media_video tag) (λ e. ([], sym (append-nil d.kept)))
      (λ e. (with_carried d tag ∷ [], refl))

drop_loop_grows :
    (tags : List FlvTag) (d : Dropping)
    → (more : List FlvTag) × ((drop_loop d tags).kept ≡ d.kept ++ more)
unfolding drop_loop
drop_loop_grows [] d = ([], sym (append-nil d.kept))
drop_loop_grows (tag ∷ tags) d =
    let (first, e) = drop_step_grows d tag in
    let (more, e') = drop_loop_grows tags (drop_step d tag) in
    (first ++ more, e' ∙ ap (λ l. l ++ more) e ∙ append_assoc d.kept first more)

drop_step-keep :
    (d : Dropping) (tag : FlvTag) → is_media_video tag ≡ false → drop_step d tag ≡ keep_tag d tag
unfolding drop_step
drop_step-keep d tag e = rw e refl

-- The part of the result that stands for the tags up to a kept tag `y`.
abbrev pub CarriedUpTo : List FlvTag → FlvTag → List FlvTag → Type 0
CarriedUpTo xs y kept =
    (before : List FlvTag) × (k : FlvTag) × (after : List FlvTag) × (kept ≡ before ++ (k ∷ after))
    × (media_of before ≡ rest_of xs)
    × (media k ≡ media y)
    × (max_ticket (before ++ (k ∷ [])) ≡ max_ticket (xs ++ (y ∷ [])))

-- Where `drop_video` keeps a tag `y`, the tags that it keeps up to `y` hold the same highest
-- ticket as all the tags up to `y` held: a ticket is neither acknowledged before the media ahead
-- of it has left the queue nor later than the next kept tag.
pub drop_video_tickets :
    (q : BoundedSenderQueue) (xs : List FlvTag) (y : FlvTag) (ys : List FlvTag)
    → q.tags ≡ xs ++ (y ∷ ys)
    → is_media_video y ≡ false
    → CarriedUpTo xs y ((drop_video q).0).tags
unfolding drop_video media_of drop_loop
drop_video_tickets q xs y ys split keeps =
    let d = drop_loop (drop_start q) xs in
    let r = drop_loop-Drops (drop_start q) xs in
    let (after, grown) = drop_loop_grows ys (keep_tag d y) in
    let whole : (drop_loop (drop_start q) q.tags).kept ≡ (keep_tag d y).kept ++ after =
      ap (λ l. (drop_loop (drop_start q) l).kept) split
      ∙ ap (λ s. s.kept) (drop_loop-append (drop_start q) xs (y ∷ ys))
      ∙ ap (λ s. (drop_loop s ys).kept) (drop_step-keep d y keeps)
      ∙ grown in
    (
      d.kept,
      with_carried d y,
      after,
      whole ∙ append_assoc d.kept _ after,
      r.kept_media,
      refl,
      omega (
        arith,
        r.ticket,
        max_ticket-append d.kept (with_carried d y ∷ []),
        max_ticket-append xs (y ∷ []),
      ),
    )
