-- ===== src/SenderQueue/Capacity.antt =====
-- The bytes that a queue counts, and its limits.
use obs_live_delay_plugin.SenderQueue.{
  BoundedSenderQueue, added_bytes, FlvTag, wire_size, has_no_room, push_sized, try_push,
}
use obs_live_delay_plugin.Base.{
  List, ◌≡◌, ℕ, ◌∷◌, ◌++◌, length, ◌<◌, false, ◌+◌, ◌≤◌, ◌^◌, [], arith, none, ◌⊎◌, some, ltb, ◌-◌,
  if_cases, Option, Bool, add_size, true, length-append, inr, inl, refl,
}

abbrev pub wire_bytes : List FlvTag → ℕ
wire_bytes [] = 0
wire_bytes (tag ∷ tags) = wire_size tag + wire_bytes tags

pub wire_bytes-append :
    (xs ys : List FlvTag) → wire_bytes (xs ++ ys) ≡ wire_bytes xs + wire_bytes ys
wire_bytes-append [] ys = omega arith
wire_bytes-append (x ∷ xs) ys = omega (arith, wire_bytes-append xs ys)

pub record IsValid (q : BoundedSenderQueue) : Type 0 where
  pub counted : q.bytes ≡ wire_bytes q.tags
  pub few : length q.tags ≤ q.limits.max_tags
  pub small : q.bytes ≤ q.limits.max_bytes
  pub sized : q.limits.max_bytes < 2 ^ 64

pub added_bytes_lem :
    (added : ℕ) (tags : List FlvTag)
    → added < 2 ^ 64
    → (added_bytes added tags ≡ none × (2 ^ 64 ≤ added + wire_bytes tags))
      ⊎ (added_bytes added tags ≡ some (added + wire_bytes tags)
          × (added + wire_bytes tags < 2 ^ 64))
unfolding added_bytes
added_bytes_lem added [] h = ground arith
added_bytes_lem added (tag ∷ tags) h =
    if_cases
      (λ (r : Option ℕ).
        (r ≡ none × (2 ^ 64 ≤ added + wire_bytes (tag ∷ tags)))
        ⊎ (r ≡ some (added + wire_bytes (tag ∷ tags)) × (added + wire_bytes (tag ∷ tags) < 2 ^ 64)))
      (ltb (2 ^ 64 - 1 - added) (wire_size tag)) (λ e. ground arith)
      (λ e.
        (let ih = added_bytes_lem (added + wire_size tag) tags (by_size added tag h e) in
          ground arith))
  where
    by_size :
        (added : ℕ) (tag : FlvTag)
        → added < 2 ^ 64
        → ltb (2 ^ 64 - 1 - added) (wire_size tag) ≡ false
        → added + wire_size tag < 2 ^ 64
    by_size added tag h e = ground arith

-- What a push does to a valid queue: the whole batch goes to the end of an open queue that has
-- room for it in tags and in bytes, and otherwise nothing changes.
abbrev pub HasRoom : BoundedSenderQueue → List FlvTag → Type 0
HasRoom q tags =
    (q.closed ≡ false)
    × (length q.tags + length tags ≤ q.limits.max_tags)
    × (wire_bytes q.tags + wire_bytes tags ≤ q.limits.max_bytes)

-- How a push ends: with the whole batch at the end of the queue, or with the queue as it was.
abbrev pub Pushed : BoundedSenderQueue → List FlvTag → BoundedSenderQueue × Bool → Type 0
Pushed q tags r =
    (HasRoom q tags × (r.1 ≡ true) × ((r.0).tags ≡ q.tags ++ tags) × IsValid r.0)
    ⊎ ((¬ HasRoom q tags) × (r.1 ≡ false) × (r.0 ≡ q))

push_IsValid :
    (q : BoundedSenderQueue) (tags : List FlvTag)
    → IsValid q
    → HasRoom q tags
    → IsValid (record q { tags = q.tags ++ tags; bytes = add_size q.bytes (0 + wire_bytes tags) })
push_IsValid q tags v (open_, count, size) = record {
  counted = omega (arith, v.counted, wire_bytes-append q.tags tags, v.sized);
  few = omega (arith, length-append q.tags tags);
  small = omega (arith, v.counted, v.sized);
  sized = v.sized;
}

has_room :
    (q : BoundedSenderQueue) (tags : List FlvTag)
    → IsValid q
    → has_no_room q (length tags) (0 + wire_bytes tags) ≡ false
    → HasRoom q tags
has_room q tags v e = (
  ground (arith, v.few, v.small),
  ground (arith, v.few, v.small),
  ground (arith, v.few, v.small, v.counted),
)

no_room :
    (q : BoundedSenderQueue) (tags : List FlvTag)
    → IsValid q
    → has_no_room q (length tags) (0 + wire_bytes tags) ≡ true
    → ¬ HasRoom q tags
no_room q tags v e (open_, count, size) = ground (arith, v.few, v.small, v.counted)

push_sized-Pushed :
    (q : BoundedSenderQueue) (tags : List FlvTag)
    → IsValid q
    → Pushed q tags (push_sized q tags (some (0 + wire_bytes tags)))
unfolding push_sized
push_sized-Pushed q tags v =
    if_cases (Pushed q tags) (has_no_room q (length tags) (0 + wire_bytes tags))
      (λ e. inr (no_room q tags v e, refl, refl))
      (λ e. (let room = has_room q tags v e in inl (room, refl, refl, push_IsValid q tags v room)))

too_large :
    (q : BoundedSenderQueue) (tags : List FlvTag)
    → IsValid q
    → 2 ^ 64 ≤ 0 + wire_bytes tags
    → ¬ HasRoom q tags
too_large q tags v large (open_, count, size) = omega (arith, v.sized)

push_sized-none :
    (q : BoundedSenderQueue) (tags : List FlvTag)
    → IsValid q
    → 2 ^ 64 ≤ 0 + wire_bytes tags
    → Pushed q tags (push_sized q tags none)
unfolding push_sized
push_sized-none q tags v large = inr (too_large q tags v large, refl, refl)

-- A push to a valid queue puts the whole batch behind the tags that wait and leaves the queue
-- valid, when the queue is open and has room for the batch in tags and in bytes; when it is not
-- so, the push is refused and the queue stays as it was.
pub try_push_all_or_nothing :
    (q : BoundedSenderQueue) (tags : List FlvTag) → IsValid q → Pushed q tags (try_push q tags)
unfolding try_push
try_push_all_or_nothing q tags v = elim (added_bytes_lem 0 tags (omega arith)) [
  | inl (e, large) ↦ rw e (push_sized-none q tags v large)
  | inr (e, small) ↦ rw e (push_sized-Pushed q tags v)
]
