-- ===== src/Controller/Buffer.antt =====
-- src/delay-controller.cpp: what the controller does to its history: rolling an armed buffer,
-- searching keyframes, trimming to a shorter delay and releasing what is old enough.
use obs_live_delay_plugin.Base.{
  ℕ, zero, suc, ◌+◌, Bool, true, false, not, ◌&&◌, Option, none, some, List, [], ◌∷◌, ◌++◌, length,
  if◌then◌else◌, sub_size, value_or, is_empty,
}
use obs_live_delay_plugin.Base.Int.{ℤ, ◌-ℤ◌, ltb_ℤ, leb_ℤ}
use obs_live_delay_plugin.Packet.{EncodedPacket, DelayState, is_keyframe, is_building, is_delayed}
use obs_live_delay_plugin.Diagnostic.{DiagnosticCode, diagnostic_error}
use obs_live_delay_plugin.Controller.State.{
  DelayController, duration, watermark, prebuffer_ready, set_error,
}

-- `n` times `buffered_bytes_ -= buffered_.front().payload.size(); buffered_.pop_front()`.
unfoldable pub pop_fronts : ℕ → List EncodedPacket → ℕ → List EncodedPacket × ℕ
pop_fronts zero ps bytes = (ps, bytes)
pop_fronts (suc n) [] bytes = ([], bytes)
pop_fronts (suc n) (p ∷ ps) bytes = pop_fronts n ps (sub_size bytes (length p.payload))

-- The loop of `roll_prebuffer_locked` from index `i` on.
unfoldable pub keep_index : ℤ → List EncodedPacket → ℕ → ℕ → ℕ
keep_index cutoff [] i keep = keep
keep_index cutoff (p ∷ ps) i keep =
    let rest = keep_index cutoff ps (i + 1) (if is_keyframe p then i else keep) in
    if ltb_ℤ cutoff p.dts_us then keep else rest

unfoldable pub rolled : ℤ → List EncodedPacket → ℕ → List EncodedPacket × ℕ
unfolding pop_fronts keep_index
rolled cutoff [] bytes = ([], bytes)
rolled cutoff (p ∷ ps) bytes = pop_fronts (keep_index cutoff ps 1 0) (p ∷ ps) bytes

-- The end of `roll_prebuffer_locked`: live output keeps its state.
unfoldable pub after_roll : DelayController → DelayController
unfolding prebuffer_ready
after_roll c = if c.passthrough then c else record c {
  state = if prebuffer_ready c then DelayState.delayed else DelayState.building_delay;
}

unfoldable pub roll_at : DelayController → ℤ → DelayController
roll_at c mark =
    let (kept, bytes) = rolled (mark -ℤ c.target_delay) c.buffered c.buffered_bytes in
    if is_empty c.buffered
    then c
    else after_roll (record c { buffered = kept; buffered_bytes = bytes })

-- `roll_prebuffer_locked`.
unfoldable pub roll_prebuffer : DelayController → DelayController
roll_prebuffer c = elim (watermark c) [ none ↦ c | some mark ↦ roll_at c mark ]

-- `std::find_if` for a video keyframe, as an index counted from `i`.
unfoldable pub keyframe_index : List EncodedPacket → ℕ → Option ℕ
keyframe_index [] i = none
keyframe_index (p ∷ ps) i =
    let rest = keyframe_index ps (i + 1) in if is_keyframe p then some i else rest

-- Where `discard_to_next_keyframe_locked` cuts.
unfoldable pub next_keyframe : Bool → List EncodedPacket → Option ℕ
unfolding keyframe_index
next_keyframe allow_current [] = none
next_keyframe allow_current (p ∷ ps) =
    if not allow_current && is_keyframe p then keyframe_index ps 1 else keyframe_index (p ∷ ps) 0

unfoldable pub discard_to_next_keyframe :
    Bool → List EncodedPacket → ℕ → (List EncodedPacket × ℕ) × Bool
unfolding next_keyframe pop_fronts
discard_to_next_keyframe allow_current ps bytes = elim (next_keyframe allow_current ps) [
  | none ↦ ((ps, bytes), false)
  | some k ↦ (pop_fronts k ps bytes, true)
]

-- The loop of `trim_to_target_locked`, on as much fuel as there are packets.
unfoldable pub trim_loop : ℕ → ℤ → List EncodedPacket → ℕ → (List EncodedPacket × ℕ) × Bool
trim_loop zero target ps bytes = ((ps, bytes), leb_ℤ (duration ps) target)
trim_loop (suc fuel) target ps bytes =
    let ((ps', bytes'), found) = discard_to_next_keyframe false ps bytes in
    let rest = trim_loop fuel target ps' bytes' in
    if ltb_ℤ target (duration ps)
    then (if found then rest else ((ps', bytes'), false))
    else ((ps, bytes), true)

unfoldable pub trim_to_target : DelayController → DelayController × Bool
trim_to_target c =
    let ((ps, bytes), done) =
      trim_loop (length c.buffered) c.target_delay c.buffered c.buffered_bytes in
    (record c { buffered = ps; buffered_bytes = bytes }, done)

-- The release loop of `promote_locked`.
unfoldable pub release_loop :
    ℤ → List EncodedPacket → List EncodedPacket → ℕ → List EncodedPacket × List EncodedPacket × ℕ
unfolding duration
release_loop delay [] ready bytes = ([], ready, bytes)
release_loop delay (p ∷ ps) ready bytes =
    let rest = release_loop delay ps (ready ++ (p ∷ [])) (sub_size bytes (length p.payload)) in
    if ltb_ℤ delay (duration (p ∷ ps)) then rest else (p ∷ ps, ready, bytes)

unfoldable pub promote_release : DelayController → DelayController
promote_release c =
    if is_delayed c.state
    then (let (ps, ready, bytes) =
          release_loop (value_or c.playback_delay c.target_delay) c.buffered c.ready
            c.buffered_bytes in
        record c { buffered = ps; ready = ready; buffered_bytes = bytes })
    else c

unfoldable pub promote_building : DelayController → DelayController
promote_building c =
    if is_building c.state && leb_ℤ c.target_delay (duration c.buffered)
    then (let ((ps, bytes), found) = discard_to_next_keyframe true c.buffered c.buffered_bytes in
        if found
        then promote_release
            (record c { buffered = ps; buffered_bytes = bytes; state = DelayState.delayed })
        else set_error (record c { buffered = ps; buffered_bytes = bytes })
            (diagnostic_error DiagnosticCode.output_controller_failed
              "No video keyframe is available to begin delayed playback"))
    else promote_release c

-- `promote_locked`.
unfoldable pub promote : DelayController → DelayController
promote c =
    if c.pending_trim
    then (let (c', done) = trim_to_target c in
        if done then promote_building (record c' { pending_trim = false }) else c')
    else promote_building c
