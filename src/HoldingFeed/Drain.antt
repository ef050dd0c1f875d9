-- ===== src/HoldingFeed/Drain.antt =====
-- What `take_packets` releases, and the feed over any sequence of calls.
use obs_live_delay_plugin.Packet.{total_bytes}
use obs_live_delay_plugin.Base.{
  suc, some, none, [], ◌∷◌, true, Option, List, arith, ◌≡◌, ℕ, if_cases, refl, length, ◌<◌, ◌+◌,
  ◌^◌, ◌≤◌, sub_size,
}
use obs_live_delay_plugin.HoldingFeed.{
  Call, step, run, insert, stable_sort, release, take_until, HoldingFeed, take_packets,
  set_failure_callback, ℤ, EncodedPacket, is_ready, after_take, new_feed, slower_stream, and_then,
  goes_before,
}
use obs_live_delay_plugin.HoldingFeed.Bounds.{
  IsValid, begin-IsValid, stop-IsValid, fail-IsValid, check_deadline-IsValid, set_headers-IsValid,
  ingest-IsValid,
}

insert_total :
    (p : EncodedPacket) (ps : List EncodedPacket)
    → (total_bytes (insert p ps) ≡ length p.payload + total_bytes ps)
      × (length (insert p ps) ≡ suc (length ps))
unfolding insert
insert_total p [] = (omega arith, refl)
insert_total p (q ∷ qs) =
    let (bytes, count) = insert_total p qs in
    if_cases
      (λ (r : List EncodedPacket).
        (total_bytes r ≡ length p.payload + total_bytes (q ∷ qs))
        × (length r ≡ suc (length (q ∷ qs))))
      (goes_before q p) (λ e. (omega (arith, bytes), omega (arith, count)))
      (λ e. (omega arith, refl))

stable_sort_total :
    (ps : List EncodedPacket)
    → (total_bytes (stable_sort ps) ≡ total_bytes ps) × (length (stable_sort ps) ≡ length ps)
unfolding stable_sort
stable_sort_total [] = (refl, refl)
stable_sort_total (p ∷ ps) =
    let (bytes, count) = stable_sort_total ps in
    let (bytes', count') = insert_total p (stable_sort ps) in
    (omega (arith, bytes, bytes'), omega (arith, count, count'))

release_total :
    (mark : ℤ) (ps : List EncodedPacket) (bytes : ℕ)
    → bytes ≡ total_bytes ps
    → bytes < 2 ^ 64
    → let (out, left, rest) = release mark ps bytes in
      (rest ≡ total_bytes left) × (rest ≤ bytes) × (length left ≤ length ps)
unfolding release
release_total mark [] bytes e h = (e, omega arith, omega arith)
release_total mark (p ∷ ps) bytes e h =
    let ih =
      release_total mark ps (sub_size bytes (length p.payload)) (omega arith) (omega arith) in
    ground (arith, ih)

take_until-IsValid : (f : HoldingFeed) (mark : ℤ) → IsValid f → IsValid (take_until f mark).0
unfolding take_until
take_until-IsValid f mark v =
    let (bytes, count) = stable_sort_total f.packets in
    let (rest, less, fewer) =
      release_total mark (stable_sort f.packets) f.status.queued_bytes
        (omega (arith, v.counted, bytes)) (omega (arith, v.bounded)) in
    record {
      counted = rest;
      bounded = omega (arith, less, v.bounded);
      few = omega (arith, fewer, count, v.few);
      video = v.video;
      sound = v.sound;
      both = v.both;
    }

-- A call that gives a feed gives a valid one, and it gives one.
abbrev Gives : Option HoldingFeed → Type 0
Gives none = ⊥
Gives (some f) = IsValid f

slower_stream_known :
    (f : HoldingFeed) (stream : Option ℤ)
    → IsValid f
    → is_ready f.status.state ≡ true
    → slower_stream f ≡ stream
    → Gives (after_take (elim stream [ none ↦ none | some mark ↦ some (take_until f mark) ]))
slower_stream_known f none v e s = absurd (ground (arith, v.video, v.sound, v.both))
slower_stream_known f (some mark) v e s = take_until-IsValid f mark v

take_packets-Gives : (f : HoldingFeed) → IsValid f → Gives (after_take (take_packets f))
unfolding take_packets
take_packets-Gives f v =
    if_cases (λ (r : Option (HoldingFeed × List EncodedPacket)). Gives (after_take r))
      (is_ready f.status.state) (λ e. slower_stream_known f (slower_stream f) v e refl) (λ e. v)

step-Gives : (f : HoldingFeed) (call : Call) → IsValid f → Gives (step f call)
unfolding step set_failure_callback
step-Gives f (Call.installs b) v = record {
  counted = v.counted;
  bounded = v.bounded;
  few = v.few;
  video = v.video;
  sound = v.sound;
  both = v.both;
}
step-Gives f (Call.begins now) v = begin-IsValid f now
step-Gives f (Call.checks now) v = check_deadline-IsValid f now v
step-Gives f (Call.gets_headers now headers) v = set_headers-IsValid f now headers v
step-Gives f (Call.ingests now p) v = ingest-IsValid f now p v
step-Gives f (Call.fails error) v = fail-IsValid f error v
step-Gives f Call.stops v = stop-IsValid f
step-Gives f Call.takes v = take_packets-Gives f v

and_then_run :
    (o : Option HoldingFeed) (next : HoldingFeed → Option HoldingFeed)
    → Gives o
    → ((f : HoldingFeed) → IsValid f → (g : HoldingFeed) × (next f ≡ some g) × IsValid g)
    → (g : HoldingFeed) × (and_then o next ≡ some g) × IsValid g
and_then_run none next v h = absurd v
and_then_run (some f) next v h = h f v

run-IsValid :
    (calls : List Call) (f : HoldingFeed)
    → IsValid f
    → (g : HoldingFeed) × (run f calls ≡ some g) × IsValid g
unfolding run
run-IsValid [] f v = (f, refl, v)
run-IsValid (call ∷ calls) f v =
    and_then_run (step f call) (λ f'. run f' calls) (step-Gives f call v) (run-IsValid calls)

-- No sequence of calls on a new feed makes `take_packets` read an empty optional, and after it the
-- feed's byte count is that of its packets, at most 16 MiB, in at most 4096 packets; a feed that
-- is ready has its keyframe and audio.
pub run-new_feed-IsValid :
    (calls : List Call) → (g : HoldingFeed) × (run new_feed calls ≡ some g) × IsValid g
run-new_feed-IsValid calls = run-IsValid calls new_feed (record {
  counted = refl;
  bounded = omega arith;
  few = omega arith;
  video = refl;
  sound = refl;
  both = refl;
})
