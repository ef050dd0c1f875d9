-- ===== src/SenderQueue/Fifo.antt =====
-- The order in which a queue hands tags on.
-- The calls that neither drop nor discard: pushes, pops and a close that keeps what waits.
use obs_live_delay_plugin.SenderQueue.{
  Call, BoundedSenderQueue, push_sized, step, run, FlvTag, close, wait_pop, try_push, pop_from,
  added_bytes, has_no_room,
}
use obs_live_delay_plugin.Base.{
  List, false, ◌++◌, if◌then◌else◌, ◌∷◌, Option, ◌≡◌, map, [], ℕ, sym, append-nil, some,
  append_assoc, ◌∙◌, ap, length, none, refl, Bool-cases, inl, inr,
}

pub data Keeping : Type 0 where
  push : List FlvTag → Keeping
  pop finish : Keeping

abbrev pub call_of : Keeping → Call
call_of (Keeping.push tags) = Call.push tags
call_of Keeping.pop = Call.pop
call_of Keeping.finish = Call.finish false

-- The tags that a call accepts, and those that it hands out.
abbrev pub taken_in : BoundedSenderQueue → Keeping → List FlvTag
taken_in q (Keeping.push tags) = if (try_push q tags).1 then tags else []
taken_in q _ = []

abbrev pub handed_on : BoundedSenderQueue → Keeping → List FlvTag
handed_on q Keeping.pop = elim (wait_pop q).1 [ none ↦ [] | some tag ↦ tag ∷ [] ]
handed_on q _ = []

unfoldable pub accepted : BoundedSenderQueue → List Keeping → List FlvTag
accepted q [] = []
accepted q (c ∷ cs) = taken_in q c ++ accepted (step q (call_of c)) cs

unfoldable pub delivered : BoundedSenderQueue → List Keeping → List FlvTag
delivered q [] = []
delivered q (c ∷ cs) = handed_on q c ++ delivered (step q (call_of c)) cs

pub push_sized_fifo :
    (q : BoundedSenderQueue) (tags : List FlvTag) (added : Option ℕ)
    → ((push_sized q tags added).0).tags
      ≡ q.tags ++ (if (push_sized q tags added).1 then tags else [])
unfolding push_sized
push_sized_fifo q tags none = sym (append-nil q.tags)
push_sized_fifo q tags (some added) = elim (Bool-cases (has_no_room q (length tags) added)) [
  | inl e ↦ rw e (sym (append-nil q.tags))
  | inr e ↦ rw e refl
]

pop_from_fifo :
    (q : BoundedSenderQueue) (tags : List FlvTag)
    → q.tags ≡ tags
    → (elim (pop_from q tags).1 [ none ↦ [] | some tag ↦ tag ∷ [] ]) ++ ((pop_from q tags).0).tags
      ≡ q.tags ++ []
pop_from_fifo q [] e = sym (append-nil q.tags)
pop_from_fifo q (tag ∷ tags) e = sym e ∙ sym (append-nil q.tags)

step_fifo :
    (q : BoundedSenderQueue) (c : Keeping)
    → handed_on q c ++ (step q (call_of c)).tags ≡ q.tags ++ taken_in q c
unfolding step close wait_pop try_push
step_fifo q (Keeping.push tags) = push_sized_fifo q tags (added_bytes 0 tags)
step_fifo q Keeping.pop = pop_from_fifo q q.tags refl
step_fifo q Keeping.finish = sym (append-nil q.tags)

-- Over any pushes, pops and closes that keep what waits, the tags handed out, followed by those
-- that still wait, are the tags that waited at first, followed by the accepted batches in order.
pub run_fifo :
    (q : BoundedSenderQueue) (calls : List Keeping)
    → delivered q calls ++ (run q (map call_of calls)).tags ≡ q.tags ++ accepted q calls
unfolding delivered accepted run
run_fifo q [] = sym (append-nil q.tags)
run_fifo q (c ∷ cs) =
    let q' = step q (call_of c) in
    append_assoc (handed_on q c) (delivered q' cs) _
    ∙ ap (λ l. handed_on q c ++ l) (run_fifo q' cs)
    ∙ sym (append_assoc (handed_on q c) q'.tags (accepted q' cs))
    ∙ ap (λ l. l ++ accepted q' cs) (step_fifo q c)
    ∙ append_assoc q.tags (taken_in q c) (accepted q' cs)
