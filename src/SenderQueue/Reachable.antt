-- ===== src/SenderQueue/Reachable.antt =====
-- A queue over any sequence of calls.
use obs_live_delay_plugin.Base.{
  true, ◌≡◌, arith, false, ◌∷◌, ◌<◌, refl, ◌^◌, inl, ok, inr, bind_ok, subst, refuse_if, length,
  sym, ◌==◌, ◌≤◌, ◌||◌, ok_inj, ◌∙◌, Option, ap, ℕ, some, if_cases, none,
}
use obs_live_delay_plugin.SenderQueue.Tickets.{drop_loop-Drops}
use obs_live_delay_plugin.SenderQueue.Capacity.{IsValid, try_push_all_or_nothing, wire_bytes}
use obs_live_delay_plugin.SenderQueue.{
  drop_video, wait_pop, BoundedSenderQueue, close, step, run, new_queue, Bool, List,
  discard_pending, SenderQueueLimits, FlvTag, [], reset, Call, drop_start, try_push, pop_from,
  push_sized, added_bytes, has_no_room,
}

drop_video-IsValid : (q : BoundedSenderQueue) → IsValid q → IsValid (drop_video q).0
unfolding drop_video
drop_video-IsValid q v =
    let r = drop_loop-Drops (drop_start q) q.tags in
    let b = r.bytes (omega (arith, v.counted)) (omega (arith, v.small, v.sized)) in
    record {
      counted = omega (arith, b, v.counted);
      few = omega (arith, r.count, v.few);
      small = omega (arith, r.less, b, v.counted, v.small);
      sized = v.sized;
    }

pop_from-IsValid :
    (q : BoundedSenderQueue) (tags : List FlvTag)
    → q.tags ≡ tags
    → IsValid q
    → IsValid (pop_from q tags).0
pop_from-IsValid q [] e v = v
pop_from-IsValid q (tag ∷ tags) e v =
    let counted : q.bytes ≡ wire_bytes (tag ∷ tags) =
      subst (λ l. q.bytes ≡ wire_bytes l) e v.counted in
    let few : length (tag ∷ tags) ≤ q.limits.max_tags =
      subst (λ l. length l ≤ q.limits.max_tags) e v.few in
    record {
      counted = omega (arith, counted, v.small, v.sized);
      few = omega (arith, few);
      small = omega (arith, counted, v.small, v.sized);
      sized = v.sized;
    }

wait_pop-IsValid : (q : BoundedSenderQueue) → IsValid q → IsValid (wait_pop q).0
unfolding wait_pop
wait_pop-IsValid q v = pop_from-IsValid q q.tags refl v

emptied :
    (q : BoundedSenderQueue) (closed : Bool)
    → IsValid q
    → IsValid (record q { tags = []; bytes = 0; closed = closed })
emptied q closed v = record {
  counted = refl;
  few = omega arith;
  small = omega arith;
  sized = v.sized;
}

try_push-IsValid :
    (q : BoundedSenderQueue) (tags : List FlvTag) → IsValid q → IsValid (try_push q tags).0
try_push-IsValid q tags v = elim (try_push_all_or_nothing q tags v) [
  | inl (_, _, _, v') ↦ v'
  | inr (_, _, e) ↦ subst IsValid (sym e) v
]

close-IsValid : (q : BoundedSenderQueue) (discard : Bool) → IsValid q → IsValid (close q discard)
unfolding close
close-IsValid q true v = emptied q true v
close-IsValid q false v = record {
  counted = v.counted;
  few = v.few;
  small = v.small;
  sized = v.sized;
}

step-IsValid : (q : BoundedSenderQueue) (call : Call) → IsValid q → IsValid (step q call)
unfolding step discard_pending reset
step-IsValid q (Call.push tags) v = try_push-IsValid q tags v
step-IsValid q Call.drop v = drop_video-IsValid q v
step-IsValid q Call.pop v = wait_pop-IsValid q v
step-IsValid q (Call.finish discard) v = close-IsValid q discard v
step-IsValid q Call.discard_all v = emptied q q.closed v
step-IsValid q Call.start_again v = emptied q false v

run-IsValid : (q : BoundedSenderQueue) (calls : List Call) → IsValid q → IsValid (run q calls)
unfolding run
run-IsValid q [] v = v
run-IsValid q (call ∷ calls) v = run-IsValid (step q call) calls (step-IsValid q call v)

push_sized-limits :
    (q : BoundedSenderQueue) (tags : List FlvTag) (added : Option ℕ)
    → ((push_sized q tags added).0).limits ≡ q.limits
unfolding push_sized
push_sized-limits q tags none = refl
push_sized-limits q tags (some added) =
    if_cases (λ (r : BoundedSenderQueue × Bool). (r.0).limits ≡ q.limits)
      (has_no_room q (length tags) added) (λ e. refl) (λ e. refl)

pop_from-limits :
    (q : BoundedSenderQueue) (tags : List FlvTag) → ((pop_from q tags).0).limits ≡ q.limits
pop_from-limits q [] = refl
pop_from-limits q (tag ∷ tags) = refl

step-limits : (q : BoundedSenderQueue) (call : Call) → (step q call).limits ≡ q.limits
unfolding step discard_pending reset close drop_video wait_pop try_push
step-limits q (Call.push tags) = push_sized-limits q tags (added_bytes 0 tags)
step-limits q Call.drop = refl
step-limits q Call.pop = pop_from-limits q q.tags
step-limits q (Call.finish true) = refl
step-limits q (Call.finish false) = refl
step-limits q Call.discard_all = refl
step-limits q Call.start_again = refl

run-limits : (q : BoundedSenderQueue) (calls : List Call) → (run q calls).limits ≡ q.limits
unfolding run
run-limits q [] = refl
run-limits q (call ∷ calls) = run-limits (step q call) calls ∙ step-limits q call

-- After any calls on a new queue, its limits are those it was made with, the bytes that it counts
-- are those of the tags in it, and bytes and tags are within the limits. The byte limit is a
-- `std::size_t`.
pub run-new_queue-IsValid :
    (limits : SenderQueueLimits) (q : BoundedSenderQueue) (calls : List Call)
    → limits.max_bytes < 2 ^ 64
    → new_queue limits ≡ ok q
    → IsValid (run q calls) × ((run q calls).limits ≡ limits)
unfolding new_queue
run-new_queue-IsValid limits q calls h e =
    let (_, _, e1) =
      bind_ok (refuse_if ((limits.max_tags == 0) || (limits.max_bytes == 0)) _) _ e in
    (
      run-IsValid q calls (
          subst IsValid (ok_inj e1)
            (record { counted = refl; few = omega arith; small = omega arith; sized = h })),
      run-limits q calls ∙ sym (ap (λ r. r.limits) (ok_inj e1)),
    )
